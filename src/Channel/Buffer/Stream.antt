-- ===== src/Channel/Buffer/Stream.antt =====
-- The buffer is a stream: what is read is what was written, in order, whatever the block sizes.
use rs_io.Base.{
  ==_iff, Bool-cases, List, [], ap, append-nil, append_assoc, arith, drop, inl, inr, length,
  length-append, length-drop, length-take, min, not, refl, suc, sym, take, take-append-drop, true,
  zero, ℕ, ◌*◌, ◌++◌, ◌+◌, ◌-◌, ◌<◌, ◌==◌, ◌∙◌, ◌∷◌, ◌≡◌, ◌≤◌, ◌⊎◌,
}
use rs_io.Text.{Text}
use rs_io.Channel.Buffer.{
  Buffer, Call, writes, reads, clears, closes, read, compact, write, clear, close, apply, run,
}

-- The bytes that are still to be read.
abbrev pub pending : Buffer → Text
pending c = drop c.ofs c.buf

-- The offset lies in the buffer, and less than half of the buffer is bytes already read.
pub record IsValid (c : Buffer) : Type 0 where
  pub within : c.ofs ≤ length c.buf
  pub compacted : (c.ofs ≡ 0) ⊎ (2 * c.ofs < length c.buf)

drop_whole : (s : Text) → drop (length s) s ≡ []
drop_whole [] = refl
drop_whole (x ∷ s) = drop_whole s

compact-IsValid : (c : Buffer) → c.ofs ≤ length c.buf → IsValid (compact c)
unfolding compact
compact-IsValid c h = ground (arith, length-drop c.ofs c.buf)

-- Every call on a valid buffer leaves it valid.
pub apply-IsValid : (c : Buffer) (k : Call) → IsValid c → IsValid (apply c k).0
unfolding apply read write clear close
apply-IsValid c (writes s) v = ground (arith, length-append c.buf s)
apply-IsValid c (reads n) v =
    ground (arith, compact-IsValid (record c { ofs = c.ofs + min (length c.buf - c.ofs) n }))
apply-IsValid c clears v = ground arith
apply-IsValid c closes v = ground arith

compact-pending : (c : Buffer) → pending (compact c) ≡ pending c
unfolding compact
compact-pending c = elim (Bool-cases (c.ofs == length c.buf)) [
  | inl all ↦
      rw all (sym (ap (λ k. drop k c.buf) ((==_iff c.ofs (length c.buf)).0 all) ∙ drop_whole c.buf))
  | inr some_left ↦ rw some_left (ground arith)
]

compact-open : (c : Buffer) → (compact c).open_ ≡ c.open_
unfolding compact
compact-open c = ground arith

drop-append : (n : ℕ) (s t : Text) → n ≤ length s → drop n (s ++ t) ≡ drop n s ++ t
drop-append zero s t h = refl
drop-append (suc n) [] t h = elim h [ ]
drop-append (suc n) (x ∷ s) t h = drop-append n s t (omega arith)

drop-drop : (m n : ℕ) (s : Text) → drop (m + n) s ≡ drop n (drop m s)
drop-drop zero n s = ap (λ k. drop k s) (omega arith)
drop-drop (suc m) n [] = let e : suc m + n ≡ suc (m + n) = omega arith in rw e (sym (drop-nil n))
  where
    drop-nil : (k : ℕ) → drop {A = ℕ} k [] ≡ []
    drop-nil zero = refl
    drop-nil (suc k) = refl
drop-drop (suc m) n (x ∷ s) =
    let e : suc m + n ≡ suc (m + n) = omega arith in rw e (drop-drop m n s)

-- The bytes that the calls write, and calls that only write and read.
abbrev pub written : List Call → Text
written [] = []
written (writes s ∷ ks) = s ++ written ks
written (k ∷ ks) = written ks

abbrev pub IsFlow : List Call → Type 0
IsFlow [] = Unit {0}
IsFlow (writes s ∷ ks) = IsFlow ks
IsFlow (reads n ∷ ks) = IsFlow ks
IsFlow (k ∷ ks) = ⊥

-- A read takes the front of what is pending, as much of it as is asked for, and leaves the rest.
pub read-pending :
    (c : Buffer) (n : ℕ)
    → c.open_ ≡ true
    → ((read c n).1 ++ pending (read c n).0 ≡ pending c)
      × (length (read c n).1 ≡ min (length (pending c)) n)
      × ((read c n).0.open_ ≡ true)
unfolding read
read-pending c n o = elim (Bool-cases (n == 0)) [
  | inl none_asked ↦ rw (none_asked) (refl, ground arith, o)
  | inr asked ↦
      let k = min (length c.buf - c.ofs) n in
      let c' = record c { ofs = c.ofs + k } in
      rw (asked, ap not o)
        (
          ap (λ s. take k (drop c.ofs c.buf) ++ s) (compact-pending c' ∙ drop-drop c.ofs k c.buf)
              ∙ take-append-drop k (drop c.ofs c.buf),
          omega (arith, length-take k (drop c.ofs c.buf), length-drop c.ofs c.buf),
          compact-open c' ∙ o,
        )
]

pub write-pending :
    (c : Buffer) (s : Text)
    → c.open_ ≡ true
    → c.ofs ≤ length c.buf
    → (pending (write c s).0 ≡ pending c ++ s) × ((write c s).0.open_ ≡ true)
unfolding write
write-pending c s o h = rw o (drop-append c.ofs c.buf s h, refl)

-- From a valid open buffer, calls that write and read in any order and in blocks of any size deliver
-- the pending bytes followed by the bytes written, in order, up to what is still pending.
pub run-stream :
    (c : Buffer) (ks : List Call) (out : Text)
    → IsValid c
    → c.open_ ≡ true
    → IsFlow ks
    → (run c out ks).1 ++ pending (run c out ks).0 ≡ out ++ (pending c ++ written ks)
unfolding run apply write
run-stream c [] out v o h = ap (◌++◌ out) (sym (append-nil (pending c)))
run-stream c (writes s ∷ ks) out v o h =
    let (e, o') = write-pending c s o v.within in
    run-stream (write c s).0 ks (out ++ []) (apply-IsValid c (writes s) v) o' h
    ∙ (ap (λ t. (out ++ []) ++ (t ++ written ks)) e ∙ simp (append-nil, append_assoc))
run-stream c (reads n ∷ ks) out v o h =
    let (e, _, o') = read-pending c n o in
    run-stream (read c n).0 ks (out ++ (read c n).1) (apply-IsValid c (reads n) v) o' h
    ∙ (append_assoc out (read c n).1 _
        ∙ ap (◌++◌ out) (sym (append_assoc (read c n).1 _ _) ∙ ap (λ t. t ++ written ks) e))
run-stream c (clears ∷ ks) out v o h = absurd h
run-stream c (closes ∷ ks) out v o h = absurd h
