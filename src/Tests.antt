-- ===== src/Tests.antt =====
-- Runs of the model on concrete inputs, and the theorems applied to them.
mod Cached
mod Served
mod Counted
mod Handled
mod Blobs
mod Uploaded
mod Opened
mod Managed
mod Requested
mod Authorized
mod Throttled
mod Configured
mod Checked
