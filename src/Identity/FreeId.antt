-- ===== src/Identity/FreeId.antt =====
-- internal/billing/identity.go, freeID: an identifier that is found is free, and over the keys of a map
-- one is found.
use cpa_plugin_group_billing.Prelude.{
  ℕ, zero, suc, ◌+◌, ◌^◌, ◌≤◌, ◌<◌, ◌≡◌, ◌≢◌, sym, ap, subst, ◌∙◌, Bool, true, false, none, some,
  [], ◌∷◌, ◌++◌, length, arith, Bool-cases, Option-cases, inl, inr,
}
use cpa_plugin_group_billing.Prelude.Table.{Table, lookup, delete, lookup-delete}
use cpa_plugin_group_billing.Prelude.Text.{Text, text_eq, text_eq_iff}
use cpa_plugin_group_billing.Identity.{
  first_free, numbered, free_id, slugify, is_key_of, new_id, or_empty,
}
use cpa_plugin_group_billing.Usd.{digits, read}
use cpa_plugin_group_billing.Usd.Decimal.{read-digits}

-- An identifier that is found is not taken.
first_free_free :
    (f : ℕ) (base : Text) (taken : Text → Bool) (i : ℕ) (id : Text)
    → first_free f base taken i ≡ some id
    → taken id ≡ false
unfolding first_free
first_free_free zero base taken i id e = cc
first_free_free (suc f) base taken i id e = elim (Bool-cases (taken (numbered base i))) [
  | inl used ↦ first_free_free f base taken (i + 1) id (rw used at e)
  | inr free ↦ ground arith
]

pub free_id_free :
    (fuel : ℕ) (name prefix : Text) (taken : Text → Bool) (id : Text)
    → free_id fuel name prefix taken ≡ some id
    → taken id ≡ false
unfolding free_id
free_id_free fuel name prefix taken id e =
    ground
      (arith, first_free_free fuel prefix taken 1 id, first_free_free 998 (slugify name) taken 2 id)

first_free_taken :
    (f : ℕ) (base : Text) (taken : Text → Bool) (i j : ℕ)
    → first_free f base taken i ≡ none
    → j < f
    → taken (numbered base (i + j)) ≡ true
unfolding first_free
first_free_taken zero base taken i j e lt = absurd (omega arith)
first_free_taken (suc f) base taken i zero e lt = ground (arith, first_free_taken f base taken)
first_free_taken (suc f) base taken i (suc j) e lt = elim (Bool-cases (taken (numbered base i))) [
  | inl used ↦
      subst (λ n. taken (numbered base n) ≡ true) (omega arith)
        (first_free_taken f base taken (i + 1) j (rw used at e) (omega arith))
  | inr free ↦ absurd (ground arith)
]

cancel : (base s t : Text) (c : ℕ) → base ++ c ∷ s ≡ base ++ c ∷ t → s ≡ t
cancel [] s t c e = cc
cancel (d ∷ base) s t c e = cancel base s t c (cc)

numbered-injective :
    (base : Text) (i j : ℕ) → i < 10 ^ 19 → j < 10 ^ 19 → numbered base i ≡ numbered base j → i ≡ j
unfolding numbered
numbered-injective base i j li lj e =
    sym (read-digits 19 i li)
    ∙ ap (read 0) (cancel base (digits 19 i) (digits 19 j) b'-' e)
    ∙ read-digits 19 j lj

numbered-apart :
    (base : Text) (i j : ℕ)
    → i < j
    → j < 10 ^ 19
    → text_eq (numbered base i) (numbered base j) ≡ false
numbered-apart base i j lt lj = elim (Bool-cases (text_eq (numbered base i) (numbered base j))) [
  | inl same ↦
      let e =
        numbered-injective base i j (omega arith) lj
          ((text_eq_iff (numbered base i) (numbered base j)).0 same) in
      absurd (omega arith)
  | inr apart ↦ apart
]

module _ {ℓ} {V : Type ℓ} where
  length-delete : (k : Text) (m : Table V) → length (delete k m) ≤ length m
  unfolding delete
  length-delete k [] = omega arith
  length-delete k ((j, v) ∷ m) = ground (arith, length-delete k m)

  length-delete_found :
      (k : Text) (m : Table V) → is_key_of m k ≡ true → length (delete k m) < length m
  unfolding delete lookup
  length-delete_found k [] h = absurd cc
  length-delete_found k ((j, v) ∷ m) h = ground (arith, length-delete k m, length-delete_found k m)

  is_key_of-delete :
      (k j : Text) (m : Table V)
      → text_eq k j ≡ false
      → is_key_of m j ≡ true
      → is_key_of (delete k m) j ≡ true
  is_key_of-delete k j m apart h = ground (arith, lookup-delete k j m)

  -- A map has as many keys as there are distinct numbered names in it.
  pigeonhole :
      (f : ℕ) (m : Table V) (base : Text) (i : ℕ)
      → ((j : ℕ) → j < f → is_key_of m (numbered base (i + j)) ≡ true)
      → i + f ≤ 10 ^ 19
      → f ≤ length m
  pigeonhole zero m base i h le = omega arith
  pigeonhole (suc f) m base i h le =
      let k = numbered base i in
      let here : is_key_of m k ≡ true =
        subst (λ n. is_key_of m (numbered base n) ≡ true) (omega arith) (h 0 (omega arith)) in
      let fewer = length-delete_found k m here in
      let rest =
        pigeonhole f (delete k m) base (i + 1)
          (λ j lt.
            is_key_of-delete k (numbered base (i + 1 + j)) m
              (numbered-apart base i (i + 1 + j) (omega arith) (omega arith))
              (subst (λ n. is_key_of m (numbered base n) ≡ true) (omega arith)
                (h (suc j) (omega arith))))
          (omega arith) in
      omega arith

  last_loop-found :
      (m : Table V) (taken : Text → Bool) (prefix : Text)
      → ((i : ℕ) → taken (numbered prefix i) ≡ true → is_key_of m (numbered prefix i) ≡ true)
      → length m + 2 ≤ 10 ^ 19
      → first_free (length m + 1) prefix taken 1 ≢ none
  last_loop-found m taken prefix key le e =
      let all = first_free_taken (length m + 1) prefix taken 1 in
      let few =
        pigeonhole (length m + 1) m prefix 1 (λ j lt. key (1 + j) (all j e lt)) (omega arith) in
      omega arith

  -- The search ends if the numbered names that are taken are keys of a map, one attempt more being
  -- enough than the map has keys.
  pub free_id-found :
      (m : Table V) (taken : Text → Bool) (name prefix : Text)
      → ((i : ℕ) → taken (numbered prefix i) ≡ true → is_key_of m (numbered prefix i) ≡ true)
      → length m + 2 ≤ 10 ^ 19
      → free_id (length m + 1) name prefix taken ≢ none
  unfolding free_id
  free_id-found m taken name prefix key le e =
      let found = last_loop-found m taken prefix key le in ground arith

  pub free_id_untaken :
      (m : Table V) (n : ℕ) (taken : Text → Bool) (name prefix : Text)
      → length m ≡ n
      → ((i : ℕ) → taken (numbered prefix i) ≡ true → is_key_of m (numbered prefix i) ≡ true)
      → n + 2 ≤ 10 ^ 19
      → taken (or_empty (free_id (n + 1) name prefix taken)) ≡ false
  free_id_untaken m n taken name prefix size key le =
      elim (Option-cases (free_id (n + 1) name prefix taken)) [
        | inl missing ↦ absurd (
            free_id-found m taken name prefix key (omega arith)
              (ap (λ n. free_id (n + 1) name prefix taken) size ∙ missing))
        | inr (id, e) ↦ rw e (free_id_free (n + 1) name prefix taken id e)
      ]

  not_key : (m : Table V) (id : Text) → is_key_of m id ≡ false → lookup id m ≡ none
  not_key m id h = ground arith

  pub new_id_free :
      (m : Table V) (name prefix : Text)
      → length m + 2 ≤ 10 ^ 19
      → lookup (new_id m name prefix) m ≡ none
  unfolding new_id
  new_id_free m name prefix le =
      elim (Option-cases (free_id (length m + 1) name prefix (is_key_of m))) [
        | inl missing ↦ absurd (free_id-found m (is_key_of m) name prefix (λ i key. key) le missing)
        | inr (id, e) ↦
            rw e (not_key m id (free_id_free (length m + 1) name prefix (is_key_of m) id e))
      ]
