-- ===== src/Channel/Value/Latest.antt =====
-- A reader gets the last value written, if the writes changed the value at all.
use rs_io.Base.{
  Bool, Bool-cases, List, [], arith, false, if◌then◌else◌, inl, inr, none, not, refl, some, true,
  ◌||◌, ◌↔◌, ◌∷◌, ◌≡◌,
}
use rs_io.Channel.Value.{changed, unchanged, read, write, write_all}

module _ {ℓ} {A : Type ℓ} (eq : A → A → Bool) where
  -- The last of the values, or the one that was there.
  abbrev pub last_or : A → List A → A
  last_or v [] = v
  last_or v (x ∷ xs) = last_or x xs

  -- Some value differs from the one before it.
  abbrev pub differs : A → List A → Bool
  differs v [] = false
  differs v (x ∷ xs) = not (eq x v) || differs x xs

  module _ (eq_iff : (a b : A) → (eq a b ≡ true) ↔ (a ≡ b)) where
    write_all-changed :
        (v : A) (xs : List A)
        → write_all eq (record { value = v; status = changed }) xs
          ≡ record { value = last_or v xs; status = changed }
    unfolding write_all write
    write_all-changed v [] = refl
    write_all-changed v (x ∷ xs) = elim (Bool-cases (eq x v)) [
      | inl same ↦ rw (same, ← (eq_iff x v).0 same) (write_all-changed x xs)
      | inr new ↦ rw new (write_all-changed x xs)
    ]

    write_all-unchanged :
        (v : A) (xs : List A)
        → write_all eq (record { value = v; status = unchanged }) xs
          ≡ record { value = last_or v xs; status = if differs v xs then changed else unchanged }
    unfolding write_all write
    write_all-unchanged v [] = refl
    write_all-unchanged v (x ∷ xs) = elim (Bool-cases (eq x v)) [
      | inl same ↦ rw (same, ← (eq_iff x v).0 same) (write_all-unchanged x xs)
      | inr new ↦ rw new (write_all-changed x xs)
    ]

    -- After any writes to a channel with nothing new, a read delivers the last value exactly if some
    -- write changed the value, and a second read delivers nothing.
    read-write_all :
        (v : A) (xs : List A)
        → let c = write_all eq (record { value = v; status = unchanged }) xs in
          ((read c).1 ≡ (if differs v xs then some (last_or v xs) else none))
          × ((read (read c).0).1 ≡ none)
          × ((read c).0.value ≡ last_or v xs)
    unfolding read
    read-write_all v xs = rw (write_all-unchanged v xs) (ground arith)
