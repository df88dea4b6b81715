-- ===== src/Channel/Buffer/Collect.antt =====
-- StreamChannel::read_all of channel.cpp on a BufferChannel that other threads write to.
use rs_io.Base.{
  Bool, List, [], ap, append-nil, append_assoc, arith, drop, false, if◌then◌else◌, length, min,
  refl, suc, sym, take, take-append-drop, true, zero, ℕ, ◌++◌, ◌∙◌, ◌∷◌, ◌≡◌,
}
use rs_io.Text.{Text}
use rs_io.Channel.Buffer.{
  Buffer, Call, writes, reads, clears, closes, read, write, close, append, apply, run,
}
use rs_io.Channel.Buffer.Stream.{
  pending, IsValid, written, read-pending, write-pending, apply-IsValid,
}

-- The loop of `read_all` with the text so far. In each round the other threads make some calls until
-- `wait` and `is_closed` return, and some more until `append` has the mutex. The last component is
-- false while the loop has not ended.
unfoldable pub read_all_loop :
    ℕ → Buffer → Text → List (List Call × List Call) → Buffer × Text × Bool
read_all_loop block c s [] = (c, s, false)
read_all_loop block c s ((before, between) ∷ rounds) =
    let (c1, _) = run c [] before in
    let (c2, _) = run c1 [] between in
    let (c3, s') = append c2 block s in
    let rest = read_all_loop block c3 s' rounds in if c1.open_ then rest else (c1, s, true)

unfoldable pub read_all : ℕ → Buffer → List (List Call × List Call) → Buffer × Text × Bool
read_all block c rounds = read_all_loop block c [] rounds

abbrev pub OnlyWrites : List Call → Type 0
OnlyWrites [] = Unit {0}
OnlyWrites (writes s ∷ ks) = OnlyWrites ks
OnlyWrites (k ∷ ks) = ⊥

abbrev pub AllWrite : List (List Call × List Call) → Type 0
AllWrite [] = Unit {0}
AllWrite ((before, between) ∷ rounds) = OnlyWrites before × OnlyWrites between × AllWrite rounds

abbrev pub all_written : List (List Call × List Call) → Text
all_written [] = []
all_written ((before, between) ∷ rounds) = written before ++ (written between ++ all_written rounds)

-- A valid open buffer that holds these bytes.
abbrev Holds : Buffer → Text → Type 0
Holds c t = IsValid c × (c.open_ ≡ true) × (pending c ≡ t)

run-Holds :
    (c : Buffer) (ks : List Call) (out t : Text)
    → OnlyWrites ks
    → Holds c t
    → Holds (run c out ks).0 (t ++ written ks)
unfolding run apply
run-Holds c [] out t h (v, o, e) = (v, o, e ∙ sym (append-nil t))
run-Holds c (writes s ∷ ks) out t h (v, o, e) =
    let (e', o') = write-pending c s o v.within in
    let rest =
      run-Holds (write c s).0 ks (out ++ []) (t ++ s) h
        (apply-IsValid c (writes s) v, o', e' ∙ ap (λ (u : Text). u ++ s) e) in
    (rest.0, rest.1, rest.2 ∙ append_assoc t s (written ks))
run-Holds c (reads n ∷ ks) out t h _ = absurd h
run-Holds c (clears ∷ ks) out t h _ = absurd h
run-Holds c (closes ∷ ks) out t h _ = absurd h

run-closed :
    (c : Buffer) (ks : List Call) (out : Text)
    → OnlyWrites ks
    → (run c out (ks ++ closes ∷ [])).0.open_ ≡ false
unfolding run apply close
run-closed c [] out h = refl
run-closed c (writes s ∷ ks) out h = run-closed (write c s).0 ks (out ++ []) h
run-closed c (reads n ∷ ks) out h = absurd h
run-closed c (clears ∷ ks) out h = absurd h
run-closed c (closes ∷ ks) out h = absurd h

split_at :
    (n : ℕ) (a b p : Text)
    → a ++ b ≡ p
    → length a ≡ min (length p) n
    → (a ≡ take n p) × (b ≡ drop n p)
split_at zero [] b p e h = (refl, e)
split_at zero (x ∷ a) b p e h = absurd (omega arith)
split_at (suc n) [] b [] e h = (refl, e)
split_at (suc n) [] b (y ∷ p) e h = absurd (omega arith)
split_at (suc n) (x ∷ a) b [] e h = absurd cc
split_at (suc n) (x ∷ a) b (y ∷ p) e h =
    let t : a ++ b ≡ p = cc in let (f, g) = split_at n a b p t (omega arith) in (cc, g)

-- What is collected and what is left, when a block is taken from the bytes of each round.
abbrev pub collected : ℕ → Text → List (List Call × List Call) → Text × Text
collected block t [] = ([], t)
collected block t ((before, between) ∷ rounds) =
    let u = (t ++ written before) ++ written between in
    let (out, left) = collected block (drop block u) rounds in (take block u ++ out, left)

collected-all :
    (block : ℕ) (t : Text) (rounds : List (List Call × List Call))
    → (collected block t rounds).0 ++ (collected block t rounds).1 ≡ t ++ all_written rounds
collected-all block t [] = sym (append-nil t)
collected-all block t ((before, between) ∷ rounds) =
    let u = (t ++ written before) ++ written between in
    append_assoc (take block u) _ _
    ∙ (ap (◌++◌ (take block u)) (collected-all block (drop block u) rounds)
        ∙ (sym (append_assoc (take block u) (drop block u) (all_written rounds))
            ∙ (ap (λ (x : Text). x ++ all_written rounds) (take-append-drop block u)
                ∙ simp append_assoc)))

read_all_loop-collected :
    (block : ℕ) (c : Buffer) (s t : Text) (rounds : List (List Call × List Call))
    (ks ls : List Call)
    → AllWrite rounds
    → OnlyWrites ks
    → Holds c t
    → let (c', out, ended) = read_all_loop block c s (rounds ++ (ks ++ closes ∷ [], ls) ∷ []) in
      (ended ≡ true) × (out ≡ s ++ (collected block t rounds).0)
unfolding read_all_loop append apply
read_all_loop-collected block c s t [] ks ls w h i =
    rw (run-closed c ks [] h) (refl, sym (append-nil s))
read_all_loop-collected block c s t ((before, between) ∷ rounds) ks ls (w, w', ws) h i =
    let j = run-Holds c before [] t w i in
    let u = (t ++ written before) ++ written between in
    let c2 = (run (run c [] before).0 [] between).0 in
    let (v, o, e) = run-Holds (run c [] before).0 between [] (t ++ written before) w' j in
    let (front, size, o') = read-pending c2 block o in
    let (got, kept) =
      split_at block (read c2 block).1 (pending (read c2 block).0) u (front ∙ e)
        (size ∙ ap (λ (x : Text). min (length x) block) e) in
    let (ended, all) =
      read_all_loop-collected block (read c2 block).0 (s ++ (read c2 block).1) (drop block u) rounds
        ks ls ws h (apply-IsValid c2 (reads block) v, o', kept) in
    rw (j.1, read_all_loop)
      (
        ended,
        all
            ∙ (append_assoc s (read c2 block).1 _
                ∙ ap (λ (x : Text). s ++ (x ++ (collected block (drop block u) rounds).0)) got),
      )

-- If other threads write to a channel that is valid and open, before and between the calls of the
-- reader, and then close it, `read_all` returns, and its text is a block of what the channel holds in
-- each round before the one that closes it. Together with what is left then, and is lost, that is what
-- the channel held at first and what was written in those rounds, in order.
pub read_all-collected :
    (block : ℕ) (c : Buffer) (rounds : List (List Call × List Call)) (ks ls : List Call)
    → IsValid c
    → c.open_ ≡ true
    → AllWrite rounds
    → OnlyWrites ks
    → let (c', out, ended) = read_all block c (rounds ++ (ks ++ closes ∷ [], ls) ∷ []) in
      let (text, lost) = collected block (pending c) rounds in
      (ended ≡ true) × (out ≡ text) × (text ++ lost ≡ pending c ++ all_written rounds)
unfolding read_all
read_all-collected block c rounds ks ls v o w h =
    let (ended, all) =
      read_all_loop-collected block c [] (pending c) rounds ks ls w h (v, o, refl) in
    (ended, all, collected-all block (pending c) rounds)
