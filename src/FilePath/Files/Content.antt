-- ===== src/FilePath/Files/Content.antt =====
-- `load`, `save` and `create` of path.cpp. The C library's files are a parameter: a file that is open, what
-- fread and fwrite do to it, and fopen.
pub mod RoundTrip
use rs_io.Text.{Text, text_eq}
use rs_io.Base.{
  Bool, Option, [], drop, false, if◌then◌else◌, inl, inr, is_nil, length, ltb, min, none, not, some,
  suc, zero, ℕ, ◌&&◌, ◌++◌, ◌-◌, ◌==◌, ◌||◌, ◌∷◌, ◌⊎◌,
}

pub record Library {ℓ} (F : Type ℓ) : Type ℓ where
  pub stdin : F
  pub stdout : F
  pub exists : Text → Bool
  pub open_in : Text → Option F
  pub open_out : Bool → Text → Option F
  pub fread : ℕ → F → Text × F
  pub fwrite : Text → F → ℕ × ℕ × F

-- The flags that the two functions look at.
pub record Flags : Type 0 where
  pub append : Bool
  pub overwrite : Bool
  pub stdio : Bool
  pub may_fail : Bool

-- What the functions throw; `no_fuel` stands for a loop that goes on beyond the bound.
pub data Thrown : Type 0 where
  io_error file_exists : Text → Thrown
  invalid_argument no_fuel : Thrown

abbrev pub block_size : ℕ
block_size = 16384

-- `stdio` is set, and the name is empty or "-".
abbrev pub is_standard : Flags → Text → Bool
is_standard g name = g.stdio && (is_nil name || text_eq name (b'-' ∷ []))

module _ {ℓ} {F : Type ℓ} (lib : Library F) where
  open lib use {stdin, stdout, exists, open_in, open_out, fread, fwrite}

  -- The loop of `load`, with the bytes that are there already.
  unfoldable pub load_loop : ℕ → ℕ → F → Text → Thrown ⊎ Text
  load_loop zero maxlen f str = inl no_fuel
  load_loop (suc k) maxlen f str =
      let n = min (maxlen - length str) block_size in
      let (bytes, f') = fread n f in
      let rest = load_loop k maxlen f' (str ++ bytes) in
      if not (ltb (length str) maxlen)
      then inr str
      else if ltb (length bytes) n
      then inr (str ++ bytes)
      else rest

  abbrev pub load_opened : ℕ → Flags → Text → ℕ → Option F → Thrown ⊎ Text
  load_opened k g name maxlen (some f) = load_loop k maxlen f []
  load_opened k g name maxlen none = if not g.may_fail then inl (io_error name) else inr []

  unfoldable pub load : ℕ → Flags → Text → ℕ → Thrown ⊎ Text
  unfolding load_loop
  load k g name maxlen =
      if is_standard g name
      then load_loop k maxlen stdin []
      else load_opened k g name maxlen (open_in name)

  -- The loop of `save`, with what is left of the text, and the file that it leaves.
  unfoldable pub save_loop : ℕ → Text → Text → F → Thrown ⊎ F
  save_loop k name [] f = inr f
  save_loop zero name (c ∷ s) f = inl no_fuel
  save_loop (suc k) name (c ∷ s) f =
      let (n, err, f') = fwrite (c ∷ s) f in
      let rest = save_loop k name (drop n (c ∷ s)) f' in
      if not (err == 0) then inl (io_error name) else rest

  abbrev pub save_opened : ℕ → Text → Text → Option F → Thrown ⊎ F
  save_opened k name str none = inl (io_error name)
  save_opened k name str (some f) = save_loop k name str f

  unfoldable pub save : ℕ → Flags → Text → Text → Thrown ⊎ F
  unfolding save_loop
  save k g name str =
      if g.append && g.overwrite
      then inl invalid_argument
      else if is_standard g name
      then save_loop k name str stdout
      else if (not g.append && not g.overwrite) && exists name
      then inl (file_exists name)
      else save_opened k name str (open_out g.append name)

  -- `create`, with no file where there is nothing to do.
  unfoldable pub create : Text → Option (Thrown ⊎ F)
  unfolding save
  create name =
      if not (exists name)
      then some (
          save 1 (record { append = false; overwrite = false; stdio = false; may_fail = false })
            name [])
      else none
