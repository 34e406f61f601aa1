-- ===== src/Handlers/Listing/Groups.antt =====
-- How a delimiter groups keys.
use azs3_proxy.Prelude.{
  ℕ, suc, ◌+◌, ◌≤◌, ◌≡◌, ◌↔◌, ◌⊎◌, ap, ◌∙◌, Text, true, false, ◌||◌, Option, none, some, List, [],
  ◌∷◌, ◌++◌, map, append-nil, append_assoc, length, take, drop, eq_text, eq_text_iff, has_prefix,
  ltb, arith, if◌then◌else◌, Option-cases, Bool-cases, inl, inr,
}
use azs3_proxy.Handlers.Types.{ObjectListItem, Object}
use azs3_proxy.Handlers.Listing.{
  list_object, index_of, seen_prefix, common_prefix, group_item, group, list_entries, max_keys_of,
  max_keys,
}

-- a text up to and with its first delimiter
abbrev pub through : Text → Text → Option Text
through [] delimiter = if has_prefix [] delimiter then some delimiter else none
through (c ∷ s) delimiter =
    let rest = through s delimiter in
    if has_prefix (c ∷ s) delimiter
    then some delimiter
    else elim rest [ none ↦ none | some t ↦ some (c ∷ t) ]

-- what a key is listed under, if it has the delimiter behind the prefix
abbrev pub grouped_under : Text → Text → Text → Option Text
grouped_under prefix delimiter key = elim (through (drop (length prefix) key) delimiter) [
  | none ↦ none
  | some t ↦ some (prefix ++ t)
]

-- a text is in a list
abbrev pub Among : Text → List Text → Type 0
Among q [] = ⊥
Among q (p ∷ ps) = (p ≡ q) ⊎ Among q ps

-- the items whose keys have no delimiter behind the prefix, and the common prefixes of the others
abbrev pub direct_of : ObjectListItem → Option Text → List ObjectListItem → List ObjectListItem
direct_of item none items = item ∷ items
direct_of item (some cp) items = items

abbrev pub prefix_of : Option Text → List Text → List Text
prefix_of none ps = ps
prefix_of (some cp) ps = cp ∷ ps

abbrev pub directs : Text → Text → List ObjectListItem → List ObjectListItem
directs prefix delimiter [] = []
directs prefix delimiter (item ∷ items) =
    direct_of item (grouped_under prefix delimiter item.key) (directs prefix delimiter items)

abbrev pub prefixes : Text → Text → List ObjectListItem → List Text
prefixes prefix delimiter [] = []
prefixes prefix delimiter (item ∷ items) =
    prefix_of (grouped_under prefix delimiter item.key) (prefixes prefix delimiter items)

-- the texts of the second list that are not there yet, behind the first list
abbrev pub add_new : List Text → List Text → List Text
add_new ps [] = ps
add_new ps (q ∷ qs) = add_new (if seen_prefix q ps then ps else ps ++ q ∷ []) qs

-- each text stands once
abbrev pub Once : List Text → Type 0
Once [] = Unit
Once (p ∷ ps) = ¬ (Among p ps) × Once ps

-- every key is at least as long as the prefix, as each is that the backend lists for it
abbrev pub AllLong : Text → List ObjectListItem → Type 0
AllLong prefix [] = Unit
AllLong prefix (item ∷ items) = (length prefix ≤ length item.key) × AllLong prefix items

seen_prefix-append :
    (q c : Text) (ps : List Text) → seen_prefix q (ps ++ c ∷ []) ≡ (seen_prefix q ps || eq_text c q)
unfolding seen_prefix
seen_prefix-append q c [] = ground arith
seen_prefix-append q c (p ∷ ps) = ground (arith, seen_prefix-append q c ps)

seen_prefix-add_new :
    (q : Text) (ps qs : List Text)
    → seen_prefix q (add_new ps qs) ≡ (seen_prefix q ps || seen_prefix q qs)
unfolding seen_prefix
seen_prefix-add_new q ps [] = ground arith
seen_prefix-add_new q ps (c ∷ qs) = ground (
  arith,
  seen_prefix-add_new q (if seen_prefix c ps then ps else ps ++ c ∷ []) qs,
  seen_prefix-append q c ps,
  eq_text_iff c q,
)

-- The map of the prefixes seen answers whether a text is in the list.
seen_prefix-Among : (q : Text) (ps : List Text) → (seen_prefix q ps ≡ true) ↔ Among q ps
unfolding seen_prefix
seen_prefix-Among q [] = ground arith
seen_prefix-Among q (p ∷ ps) = ground (arith, seen_prefix-Among q ps, eq_text_iff p q)

seen_prefix-unseen : (q : Text) (ps : List Text) → seen_prefix q ps ≡ false → ¬ (Among q ps)
seen_prefix-unseen q ps h = ground (arith, seen_prefix-Among q ps)

Once-append : (c : Text) (ps : List Text) → Once ps → seen_prefix c ps ≡ false → Once (ps ++ c ∷ [])
unfolding seen_prefix
Once-append c [] o h = ((λ e. e), tt)
Once-append c (p ∷ ps) o h =
    let fresh : seen_prefix p (ps ++ c ∷ []) ≡ false = ground (
      arith,
      seen_prefix-append p c ps,
      seen_prefix-Among p ps,
      eq_text_iff c p,
      eq_text_iff p c,
    ) in
    (seen_prefix-unseen p (ps ++ c ∷ []) fresh, Once-append c ps o.1 (ground arith))

Once-add_new : (ps qs : List Text) → Once ps → Once (add_new ps qs)
Once-add_new ps [] o = o
Once-add_new ps (c ∷ qs) o =
    Once-add_new (if seen_prefix c ps then ps else ps ++ c ∷ []) qs
      (ground (arith, Once-append c ps o))

take-has_prefix : (s sub : Text) → has_prefix s sub ≡ true → take (length sub) s ≡ sub
unfolding has_prefix
take-has_prefix s [] h = ground arith
take-has_prefix [] (b ∷ sub) h = ground arith
take-has_prefix (a ∷ s) (b ∷ sub) h = ground (arith, take-has_prefix s sub)

take-index_of :
    (s sub : Text)
    → elim (index_of s sub) [ none ↦ none | some i ↦ some (take (i + length sub) s) ]
      ≡ through s sub
unfolding index_of
take-index_of [] sub = elim (Bool-cases (has_prefix [] sub)) [
  | inl here ↦ ground (arith, here, take-has_prefix [] sub here)
  | inr later ↦ ground (arith, later)
]
take-index_of (c ∷ s) sub = elim (Bool-cases (has_prefix (c ∷ s) sub)) [
  | inl here ↦ rw here (
      ap (λ n. some (take n (c ∷ s))) (let at : 0 + length sub ≡ length sub = omega arith in at)
      ∙ ap some (take-has_prefix (c ∷ s) sub here))
  | inr later ↦ elim (Option-cases (index_of s sub)) [
    | inl absent ↦ rw later (rw absent (ground (arith, absent, take-index_of s sub)))
    | inr (i, there) ↦
        let at : suc i + length sub ≡ suc (i + length sub) = omega arith in
        rw later (
          rw there
            (ap (λ n. some (take n (c ∷ s))) at ∙ ground (arith, there, take-index_of s sub)))
  ]
]

common_prefix-grouped_under :
    (prefix delimiter key : Text)
    → common_prefix prefix delimiter key ≡ grouped_under prefix delimiter key
unfolding common_prefix
common_prefix-grouped_under prefix delimiter key =
    let rest = drop (length prefix) key in
    elim (Option-cases (index_of rest delimiter)) [
      | inl absent ↦ ground (arith, absent, take-index_of rest delimiter)
      | inr (i, there) ↦ ground (arith, there, take-index_of rest delimiter)
    ]

group-directs :
    (now prefix delimiter : Text) (items : List ObjectListItem) (objects : List Object)
    (ps : List Text)
    → AllLong prefix items
    → group now prefix delimiter items (objects, ps)
      ≡ some (
        objects ++ map (list_object now) (directs prefix delimiter items),
        add_new ps (prefixes prefix delimiter items),
      )
unfolding group group_item
group-directs now prefix delimiter [] objects ps long = ground (arith, append-nil objects)
group-directs now prefix delimiter (item ∷ items) objects ps long =
    let same = common_prefix-grouped_under prefix delimiter item.key in
    elim (Option-cases (grouped_under prefix delimiter item.key)) [
      | inl direct ↦
          let fits : ltb (length item.key) (length prefix) ≡ false = ground arith in
          rw (same ∙ direct) (
            rw (direct, fits)
              (group-directs now prefix delimiter items (objects ++ list_object now item ∷ []) ps
                  long.1
                ∙ ap (λ os. some (os, add_new ps (prefixes prefix delimiter items)))
                    (append_assoc objects (list_object now item ∷ [])
                      (map (list_object now) (directs prefix delimiter items)))))
      | inr (cp, grouped) ↦
          let fits : ltb (length item.key) (length prefix) ≡ false = ground arith in
          rw (same ∙ grouped) (
            rw (grouped, fits)
              (group-directs now prefix delimiter items objects
                (if seen_prefix cp ps then ps else ps ++ cp ∷ []) long.1))
    ]

-- With a delimiter, and keys at least as long as the prefix, a list has the objects whose keys have no
-- delimiter behind the prefix, in their order, and texts of which each stands once and that are what
-- the other keys begin with, up to and with the first delimiter behind the prefix: a text is listed
-- exactly when some key is listed under it.
pub list_entries-directs :
    (now prefix : Text) (c : ℕ) (delimiter : Text) (items : List ObjectListItem)
    → AllLong prefix items
    → (ps : List Text) × (list_entries now prefix (c ∷ delimiter) items
        ≡ some (map (list_object now) (directs prefix (c ∷ delimiter) items), ps))
      × Once ps
      × ((q : Text) → Among q ps ↔ Among q (prefixes prefix (c ∷ delimiter) items))
unfolding list_entries seen_prefix
list_entries-directs now prefix c delimiter items long =
    let all = prefixes prefix (c ∷ delimiter) items in
    (
      add_new [] all,
      group-directs now prefix (c ∷ delimiter) items [] [] long,
      Once-add_new [] all tt,
      λ q. ground (
        arith,
        seen_prefix-add_new q [] all,
        seen_prefix-Among q (add_new [] all),
        seen_prefix-Among q all,
      ),
    )

-- Whatever the query says, the page that is asked for has between 1 and 1000 keys.
pub max_keys_bounds : (text : Text) → (1 ≤ max_keys text) × (max_keys text ≤ 1000)
unfolding max_keys max_keys_of
max_keys_bounds [] = omega arith
max_keys_bounds (c ∷ s) = ground arith
