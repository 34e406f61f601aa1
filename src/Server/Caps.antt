-- ===== src/Server/Caps.antt =====
-- Which caps PUT /admin/caps sets.
use azs3_proxy.Prelude.{ℕ, ◌≡◌, Bool, true, false, ◌&&◌, ◌||◌, Option, none, some, arith}
use azs3_proxy.Limiter.{Floats}
use azs3_proxy.Server.{BandwidthCaps, update_caps}

module _ (fl : Floats) where
  open fl use {F, ratio, less}

  -- If PUT /admin/caps sets caps in the backend, then the answer is 200, the backend can be updated,
  -- the caps are those of the payload, none is negative, and a combined cap does not come with a
  -- cap for reads or for writes.
  pub update_caps_set :
      (updater : Bool) (payload : Option (BandwidthCaps fl)) (status : ℕ) (caps : BandwidthCaps fl)
      → update_caps fl updater payload ≡ (status, some caps)
      → let zero = ratio 0 1 in
        (status ≡ 200)
        × (updater ≡ true)
        × (payload ≡ some caps)
        × ((less caps.read_mbps zero || (less caps.write_mbps zero || less caps.combined_mbps zero))
            ≡ false)
        × ((less zero caps.combined_mbps && (less zero caps.read_mbps || less zero caps.write_mbps))
            ≡ false)
  unfolding update_caps
  update_caps_set updater none status caps h = ground arith
  update_caps_set updater (some c) status caps h = ground arith
