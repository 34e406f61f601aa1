-- ===== src/Config/Checked.antt =====
-- What Validate gives to the parts of the server that are made from a configuration.
use azs3_proxy.Prelude.{
  ℕ, ◌≤◌, ◌≡◌, refl, sym, ap, ◌∙◌, Text, codes, [], Bool, true, false, ◌&&◌, ◌||◌, Option, none,
  some, Option-cases, Bool-cases, inl, inr, ◌⊎◌, arith,
}
use azs3_proxy.Bandwidth
use azs3_proxy.Bandwidth.{new_token_bucket, new_bandwidth_limiter, BandwidthLimiter}
use azs3_proxy.Limiter
use azs3_proxy.Limiter.{new_limiter}
use azs3_proxy.Range.Numbers.{Int64, positive, negative}
use azs3_proxy.Config.{Environment, get_env, load_azure_auth_config_with_backend}
use azs3_proxy.Config.Loaded.{Loading-cases}
use azs3_proxy.Config.Settings.{
  not_positive, less, Config, configured, check_limiter, check_caps, check_cache, validate_config,
  normalize_backend_type, config_of, load_config,
}

module _ (fl : Bandwidth.Floats) (parse_float : Text → Option fl.Float) where
  abbrev zero : fl.Float
  zero = fl.of_count 0

  load_config-validated :
      (env : Environment) (readable : Text → Bool) (c : Config fl parse_float)
      → load_config fl parse_float env readable ≡ configured c
      → validate_config fl parse_float c ≡ none
  unfolding load_config
  load_config-validated env readable c h =
      let backend_type = normalize_backend_type (get_env env (codes "AZURE_BACKEND_TYPE") []) in
      elim (Loading-cases (load_azure_auth_config_with_backend env readable backend_type)) [
        | inl (e, off) ↦ absurd (ground (arith, h, off))
        | inr (auth, on) ↦
            elim (Option-cases
              (validate_config fl parse_float (config_of fl parse_float env backend_type auth))) [
                | inl fine ↦
                    let made : config_of fl parse_float env backend_type auth ≡ c =
                      ground (arith, h, on, fine) in
                    ap (validate_config fl parse_float) (sym made) ∙ fine
                | inr (message, bad) ↦ absurd (ground (arith, h, on, bad))
              ]
      ]

  validate_config-caps :
      (c : Config fl parse_float)
      → validate_config fl parse_float c ≡ none
      → ((fl.more c.cap_mbps_combined zero
            && (fl.more c.cap_mbps_read zero || fl.more c.cap_mbps_write zero))
          ≡ false)
        × (check_limiter fl parse_float c ≡ none)
  unfolding validate_config check_cache check_caps
  validate_config-caps c h = ground (arith, h)

  -- a cap that is not above 0 makes no bucket
  no_bucket :
      (now : ℕ) (bps : fl.Float) → fl.not_positive bps ≡ true → new_token_bucket fl now bps ≡ none
  unfolding new_token_bucket
  no_bucket now bps h = rw h refl

  -- a float64 that is not NaN is at most 0, or above 0
  abbrev pub IsNumber : fl.Float → Type 0
  IsNumber x = fl.not_positive x ≡ false → fl.more x (fl.of_count 0) ≡ true

  -- Where none of the three caps is NaN, and a float64 that is at most 0 is so in bits either: the
  -- limiter that is made from the caps of a configuration that is loaded has no combined bucket, or
  -- no other, so no byte is throttled twice.
  pub load_config-single :
      (env : Environment) (readable : Text → Bool) (c : Config fl parse_float) (now : ℕ)
      (l : BandwidthLimiter fl)
      → IsNumber c.cap_mbps_read
      → IsNumber c.cap_mbps_write
      → IsNumber c.cap_mbps_combined
      → ((x : fl.Float) → fl.not_positive x ≡ true → fl.not_positive (fl.to_bps x) ≡ true)
      → load_config fl parse_float env readable ≡ configured c
      → new_bandwidth_limiter fl now c.cap_mbps_read c.cap_mbps_write c.cap_mbps_combined ≡ some l
      → (l.combined ≡ none) ⊎ ((l.download ≡ none) × (l.upload ≡ none))
  unfolding new_bandwidth_limiter
  load_config-single env readable c now l read write combined sign ok made =
      let (apart, _) = validate_config-caps c (load_config-validated env readable c ok) in
      let limiter : BandwidthLimiter fl = record {
        download = new_token_bucket fl now (fl.to_bps c.cap_mbps_read);
        upload = new_token_bucket fl now (fl.to_bps c.cap_mbps_write);
        combined = new_token_bucket fl now (fl.to_bps c.cap_mbps_combined);
      } in
      let same : limiter ≡ l = ground (arith, made) in
      let none_for : (x : fl.Float)
          → fl.not_positive x ≡ true
          → new_token_bucket fl now (fl.to_bps x) ≡ none =
        λ x h. no_bucket now (fl.to_bps x) (sign x h) in
      elim (Bool-cases (fl.not_positive c.cap_mbps_combined)) [
        | inl off ↦ inl (sym (ap (λ m. m.combined) same) ∙ none_for c.cap_mbps_combined off)
        | inr on ↦
            let above = combined on in
            inr (
              sym (ap (λ m. m.download) same)
                  ∙ none_for c.cap_mbps_read (ground (arith, apart, above, read)),
              sym (ap (λ m. m.upload) same)
                  ∙ none_for c.cap_mbps_write (ground (arith, apart, above, write)),
            )
      ]

  positive_value : (i : Int64) → not_positive i ≡ false → (n : ℕ) × (i ≡ positive n) × (1 ≤ n)
  unfolding not_positive
  positive_value (positive n) h = (n, refl, ground (arith, h))
  positive_value (negative n) h = cc

  check_limiter-settings :
      (c : Config fl parse_float)
      → check_limiter fl parse_float c ≡ none
      → c.adaptive_concurrency_enabled ≡ true
      → (not_positive c.adaptive_concurrency_min ≡ false)
        × (less c.adaptive_concurrency_max c.adaptive_concurrency_min ≡ false)
  unfolding check_limiter
  check_limiter-settings c h on = ground (arith, h, on)

  not_less :
      (n : ℕ) (i : Int64)
      → 1 ≤ n
      → less i (positive n) ≡ false
      → (m : ℕ) × (i ≡ positive m) × (n ≤ m)
  unfolding less
  not_less n (positive m) h e = (m, refl, ground (arith, e))
  not_less n (negative m) h e = absurd (ground (arith, h, e))

  -- In a configuration that is loaded with the adaptive limiter on, the minimum is at least 1 and at
  -- most the maximum, and the limiter that is made from them, with any target, starts with the
  -- minimum, and has the two as they are for its floor and its ceiling.
  pub load_config-limiter :
      (floats : Limiter.Floats) (env : Environment) (readable : Text → Bool)
      (c : Config fl parse_float) (target : ℕ)
      → load_config fl parse_float env readable ≡ configured c
      → c.adaptive_concurrency_enabled ≡ true
      → (least : ℕ) × (most : ℕ) × (c.adaptive_concurrency_min ≡ positive least)
        × (c.adaptive_concurrency_max ≡ positive most)
        × (1 ≤ least)
        × (least ≤ most)
        × ((new_limiter floats least most target).floor ≡ least)
        × ((new_limiter floats least most target).limit ≡ least)
        × ((new_limiter floats least most target).ceiling ≡ most)
  unfolding new_limiter
  load_config-limiter floats env readable c target ok on =
      let (_, checked) = validate_config-caps c (load_config-validated env readable c ok) in
      let (pos, ordered) = check_limiter-settings c checked on in
      let (least, min_eq, one) = positive_value c.adaptive_concurrency_min pos in
      let ordered1 : less c.adaptive_concurrency_max (positive least) ≡ false =
        ap (less c.adaptive_concurrency_max) (sym min_eq) ∙ ordered in
      let (most, max_eq, le) = not_less least c.adaptive_concurrency_max one ordered1 in
      (
        least,
        most,
        min_eq,
        max_eq,
        one,
        le,
        ground (arith, one),
        ground (arith, one),
        ground (arith, one, le),
      )
