-- ===== src/Channel/Value.antt =====
-- ValueChannel of channel.hpp. `T` is equality comparable: its `==` is a parameter. `clear` is
-- declared there and defined nowhere.
use rs_io.Base.{
  Bool, List, Option, [], false, if◌then◌else◌, ltb, none, not, some, true, ℕ, ◌&&◌, ◌∷◌,
}
pub mod Latest

pub data Status : Type 0 where
  changed unchanged closed : Status

abbrev pub ready : Status → Bool
ready unchanged = false
ready changed = true
ready closed = true

pub record Value {ℓ} (A : Type ℓ) : Type ℓ where
  pub value : A
  pub status : Status

module _ {ℓ} {A : Type ℓ} where
  -- The constructor; the default constructor passes `T()`.
  unfoldable pub init : A → Value A
  init t = record { value = t; status = unchanged }

  unfoldable pub close : Value A → Value A
  close c = record c { status = closed }

  abbrev read_by : Value A → Status → Value A × Option A
  read_by c changed = (record c { status = unchanged }, some c.value)
  read_by c unchanged = (c, none)
  read_by c closed = (c, none)

  unfoldable pub read : Value A → Value A × Option A
  read c = read_by c c.status

  module _ (eq : A → A → Bool) where
    abbrev write_by : Value A → A → Status → Value A × Bool
    write_by c t closed = (c, false)
    write_by c t changed =
        if eq t c.value then (c, true) else (record { value = t; status = changed }, true)
    write_by c t unchanged =
        if eq t c.value then (c, true) else (record { value = t; status = changed }, true)

    unfoldable pub write : Value A → A → Value A × Bool
    write c t = write_by c t c.status

  -- `do_wait_for(t)`: if it waits on the condition variable, other threads leave the state `after`.
  unfoldable pub do_wait_for : Value A → ℕ → Value A → Bool
  do_wait_for c t after =
      if not (ready c.status) && ltb 0 t then ready after.status else ready c.status

-- The writes of one thread after another.
module _ {ℓ} {A : Type ℓ} (eq : A → A → Bool) where
  unfoldable pub write_all : Value A → List A → Value A
  write_all c [] = c
  write_all c (x ∷ xs) = write_all (write eq c x).0 xs
