-- ===== src/Server/Access.antt =====
-- Which requests reach a handler, and under whose authority.
use azs3_proxy.Prelude.{◌≡◌, Bool, true, false, Text, codes, eq_text_iff, ◌⊎◌, arith}
use azs3_proxy.Server.{
  HttpMethod, Request, Handler, Route, admin_allowed, auth_middleware, runs, serve,
}

-- If the signature of a request does not verify and a handler runs all the same, then the path is that
-- of the health checks, or it is /admin/caps and the admin token is the configured one or none is configured.
pub serve_unverified :
    (find_route : HttpMethod → Text → Route) (admin_token : Text)
    (verify_signature : Request → Bool) (r : Request) (h : Handler)
    → verify_signature r ≡ false
    → serve find_route admin_token verify_signature r ≡ runs h
    → (r.path ≡ codes "/health")
      ⊎ (r.path ≡ codes "/ping")
      ⊎ ((r.path ≡ codes "/admin/caps") × (admin_allowed admin_token r.admin_token ≡ true))
unfolding auth_middleware serve
serve_unverified find_route admin_token verify_signature r h v s =
    let a = (eq_text_iff r.path (codes "/health")).0 in
    let b = (eq_text_iff r.path (codes "/ping")).0 in
    let c = (eq_text_iff r.path (codes "/admin/caps")).0 in ground (arith, a, b, c)
