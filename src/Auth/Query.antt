-- ===== src/Auth/Query.antt =====
-- The canonical query string, whatever the order in which Go gives the keys of a map.
use mathlib.Core.Logic.{∥∥₁_elim}
use mathlib.Core.List.{Permᴰ, Perm}
use azs3_proxy.Prelude.{
  ◌≡◌, refl, sym, ap, ap₂, ◌∙◌, Text, codes, true, false, List, [], ◌∷◌, arith,
}
use azs3_proxy.Auth.{
  HttpRequest, le_text, insert_text, sort_strings, join, query_parts, build_canonical_query_string,
}

le_text_total : (s t : Text) → le_text s t ≡ false → le_text t s ≡ true
unfolding le_text
le_text_total [] t h = ground arith
le_text_total (a ∷ s) [] h = ground arith
le_text_total (a ∷ s) (b ∷ t) h = ground (arith, le_text_total s t)

le_text_antisymm : (s t : Text) → le_text s t ≡ true → le_text t s ≡ true → s ≡ t
unfolding le_text
le_text_antisymm [] [] h k = refl
le_text_antisymm [] (b ∷ t) h k = ground arith
le_text_antisymm (a ∷ s) [] h k = ground arith
le_text_antisymm (a ∷ s) (b ∷ t) h k = ground (arith, le_text_antisymm s t)

le_text_trans : (s t u : Text) → le_text s t ≡ true → le_text t u ≡ true → le_text s u ≡ true
unfolding le_text
le_text_trans [] t u h k = ground arith
le_text_trans (a ∷ s) [] u h k = ground arith
le_text_trans (a ∷ s) (b ∷ t) [] h k = ground arith
le_text_trans (a ∷ s) (b ∷ t) (c ∷ u) h k = ground (arith, le_text_trans s t u)

-- Two insertions give the same list in either order.
insert_text-insert_text :
    (s t : Text) (us : List Text)
    → insert_text s (insert_text t us) ≡ insert_text t (insert_text s us)
unfolding insert_text
insert_text-insert_text s t [] =
    ground (arith, le_text_total s t, le_text_total t s, le_text_antisymm s t)
insert_text-insert_text s t (u ∷ us) = ground (
  arith,
  insert_text-insert_text s t us,
  le_text_total s t,
  le_text_total t s,
  le_text_antisymm s t,
  le_text_trans s t u,
  le_text_trans t s u,
  le_text_total s u,
  le_text_total t u,
)

sort_strings-Permᴰ : {ss ts : List Text} → Permᴰ ss ts → sort_strings ss ≡ sort_strings ts
unfolding sort_strings
sort_strings-Permᴰ Permᴰ.nil = refl
sort_strings-Permᴰ (Permᴰ.cons e p) = ap₂ insert_text e (sort_strings-Permᴰ p)
sort_strings-Permᴰ (Permᴰ.swap {a = a} {b = b} {l = l} e f) =
    insert_text-insert_text a b (sort_strings l)
    ∙ ap₂ insert_text f (ap (λ x. insert_text x (sort_strings l)) e)
sort_strings-Permᴰ (Permᴰ.trans p q) = sort_strings-Permᴰ p ∙ sort_strings-Permᴰ q

sort_strings-Perm : (ss ts : List Text) → Perm ss ts → sort_strings ss ≡ sort_strings ts
sort_strings-Perm ss ts p = ∥∥₁_elim p (hlevel) sort_strings-Permᴰ

-- Two requests that differ only in the order in which Go gives the keys of the query have the same
-- canonical query string.
pub build_canonical_query_string-Perm :
    (r : HttpRequest) (keys : List Text)
    → Perm r.query_keys keys
    → build_canonical_query_string (record r { query_keys = keys }) ≡ build_canonical_query_string r
unfolding build_canonical_query_string
build_canonical_query_string-Perm r keys p =
    ap (λ ks. join (codes "&") (query_parts r.query_values ks))
      (sym (sort_strings-Perm r.query_keys keys p))
