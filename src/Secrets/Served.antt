-- ===== src/Secrets/Served.antt =====
-- The order in which internal/secrets/replacer.go hides the secrets.
use arch_agent.Base.Keys.{string_eq, ==_iff}
use arch_agent.Secrets.{Secrets, insert_longer, placeholders, replacer_pairs, sort_longest}
use arch_agent.Base.{
  Bool, List, String, [], arith, false, leb, not, refl, true, ℕ, ◌&&◌, ◌||◌, ◌∷◌, ◌≡◌,
}
use arch_agent.Base.Keys.{◌==◌}

abbrev pub values_of : List (String × String) → List String
values_of [] = []
values_of (p ∷ ps) = p.1 ∷ values_of ps

-- What the replacer looks for.
abbrev pub hidden_by : List (String × String) → List String
hidden_by [] = []
hidden_by (p ∷ ps) = p.0 ∷ hidden_by ps

abbrev pub has_text : String → List String → Bool
has_text v [] = false
has_text v (x ∷ xs) = (x == v) || has_text v xs

module _ (byte_length : String → ℕ) where
  abbrev pub no_longer : ℕ → List String → Bool
  no_longer n [] = true
  no_longer n (v ∷ vs) = leb (byte_length v) n && no_longer n vs

  -- No text stands behind a shorter one.
  abbrev pub longest_first : List String → Bool
  longest_first [] = true
  longest_first (v ∷ vs) = no_longer (byte_length v) vs && longest_first vs

  no_longer_mono :
      (m n : ℕ) (vs : List String) → leb m n ≡ true → no_longer m vs ≡ true → no_longer n vs ≡ true
  no_longer_mono m n [] h k = refl
  no_longer_mono m n (v ∷ vs) h k = ground (arith, no_longer_mono m n vs h)

  no_longer-insert_longer :
      (n : ℕ) (p : String × String) (qs : List (String × String))
      → no_longer n (values_of (insert_longer byte_length p qs))
        ≡ (leb (byte_length p.1) n && no_longer n (values_of qs))
  unfolding insert_longer
  no_longer-insert_longer n p [] = refl
  no_longer-insert_longer n p (q ∷ qs) = ground (arith, no_longer-insert_longer n p qs)

  longest_first-insert_longer :
      (p : String × String) (qs : List (String × String))
      → longest_first (values_of qs) ≡ true
      → longest_first (values_of (insert_longer byte_length p qs)) ≡ true
  unfolding insert_longer
  longest_first-insert_longer p [] h = refl
  longest_first-insert_longer p (q ∷ qs) h = ground (
    arith,
    longest_first-insert_longer p qs,
    no_longer-insert_longer (byte_length q.1) p qs,
    no_longer_mono (byte_length q.1) (byte_length p.1) (values_of qs),
  )

  longest_first-sort_longest :
      (ps : List (String × String)) → longest_first (values_of (sort_longest byte_length ps)) ≡ true
  unfolding sort_longest
  longest_first-sort_longest [] = refl
  longest_first-sort_longest (p ∷ ps) =
      longest_first-insert_longer p (sort_longest byte_length ps) (longest_first-sort_longest ps)

  no_longer-placeholders :
      (n : ℕ) (ps : List (String × String))
      → no_longer n (values_of ps) ≡ true
      → no_longer n (hidden_by (placeholders ps)) ≡ true
  unfolding placeholders
  no_longer-placeholders n [] h = refl
  no_longer-placeholders n ((k, v) ∷ ps) h = ground (arith, no_longer-placeholders n ps)

  longest_first-placeholders :
      (ps : List (String × String))
      → longest_first (values_of ps) ≡ true
      → longest_first (hidden_by (placeholders ps)) ≡ true
  unfolding placeholders
  longest_first-placeholders [] h = refl
  longest_first-placeholders ((k, v) ∷ ps) h =
      ground (arith, longest_first-placeholders ps, no_longer-placeholders (byte_length v) ps)

  has_text-insert_longer :
      (v : String) (p : String × String) (qs : List (String × String))
      → has_text v (values_of (insert_longer byte_length p qs))
        ≡ ((p.1 == v) || has_text v (values_of qs))
  unfolding insert_longer
  has_text-insert_longer v p [] = refl
  has_text-insert_longer v p (q ∷ qs) = ground (arith, has_text-insert_longer v p qs)

  has_text-sort_longest :
      (v : String) (ps : List (String × String))
      → has_text v (values_of (sort_longest byte_length ps)) ≡ has_text v (values_of ps)
  unfolding sort_longest
  has_text-sort_longest v [] = refl
  has_text-sort_longest v (p ∷ ps) =
      ground (
        arith,
        has_text-sort_longest v ps,
        has_text-insert_longer v p (sort_longest byte_length ps),
      )

  has_text-placeholders :
      (v : String) (ps : List (String × String))
      → has_text v (hidden_by (placeholders ps)) ≡ (has_text v (values_of ps) && not (v == ""))
  unfolding placeholders
  has_text-placeholders v [] = refl
  has_text-placeholders v ((k, x) ∷ ps) =
      ground (arith, has_text-placeholders v ps, ==_iff x v, ==_iff x "", ==_iff v "")

  -- The replacer looks for exactly the secrets that are not empty, and for no secret before a longer
  -- one, so that none is hidden in part by another that it contains.
  pub replacer_pairs-longest_first :
      (s : Secrets) (v : String)
      → (longest_first (hidden_by (replacer_pairs byte_length s)) ≡ true)
        × (has_text v (hidden_by (replacer_pairs byte_length s))
            ≡ (has_text v (values_of s.secrets) && not (v == "")))
  unfolding replacer_pairs
  replacer_pairs-longest_first s v = (
    longest_first-placeholders (sort_longest byte_length s.secrets)
        (longest_first-sort_longest s.secrets),
    ground (
      arith,
      has_text-placeholders v (sort_longest byte_length s.secrets),
      has_text-sort_longest v s.secrets,
    ),
  )
