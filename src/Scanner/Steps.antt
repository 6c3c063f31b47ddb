-- ===== src/Scanner/Steps.antt =====
-- The turns of the loop of src/parsestatements/scanner.c on the characters of a printed statement.
use slony1_engine.Base.{
  ℕ, ◌+◌, ◌<◌, ◌≡◌, ◌≢◌, refl, sym, ap, subst, ◌∙◌, Bool, true, false, List, [], ◌∷◌, ◌++◌, ◌==◌,
  if◌then◌else◌, arith, length, Bool-cases, inl, inr,
}
use slony1_engine.Base.Int.{pos, ◌+ℤ◌, ◌-ℤ◌}
use slony1_engine.Scanner.{
  QuoteState, normal_state, hope_to_dash, dashing_state, hope_to_ccomment, ccomment, double_quoting,
  single_quoting, Bracket, paren, broket, squiggle, CharClass, nul, dash, Scan, classify, read_char,
  is_boundary, step, head_char, scan_from,
}
use slony1_engine.Scanner.Lexemes.{open_char, close_char, is_plain, stays, IsContent}

-- In state `st` at `p`, within so many brackets; no quote was hidden so far.
abbrev pub place : QuoteState → ℕ → ℕ → ℕ → ℕ → Scan → Scan
place st p a b c s = record s {
  cpos = p;
  bquote = false;
  state = st;
  nparens = pos a;
  nbrokets = pos b;
  nsquigb = pos c;
}

classify-nul : (c : ℕ) → (c == 0) ≡ true → classify c ≡ nul
unfolding classify
classify-nul c h = rw h

-- One turn of the loop, where no statement ends.
scan-step :
    (w : List ℕ) (c : ℕ) (cs : List ℕ) (s : Scan) (k : CharClass)
    → classify c ≡ k
    → k ≢ nul
    → is_boundary k s ≡ false
    → scan_from w (c ∷ cs) s ≡ scan_from w cs (step (read_char w (head_char cs) k s))
unfolding scan_from
scan-step w c cs s k e h b = elim (Bool-cases (c == 0)) [
  | inl stop ↦ absurd (h (sym e ∙ classify-nul c stop))
  | inr more ↦
      rw (more, e, b, scan_from)
        (ap (λ k. scan_from w cs (step (read_char w (head_char cs) k s))) e)
]

count_up : (x : ℕ) → pos x +ℤ pos 1 ≡ pos (x + 1)
unfolding ◌+ℤ◌
count_up x = ground arith

count_down : (x : ℕ) → pos (x + 1) +ℤ (pos 0 -ℤ pos 1) ≡ pos x
unfolding ◌+ℤ◌ ◌-ℤ◌
count_down x = ground arith

module _ (w : List ℕ) (s : Scan) where
  -- Within a quote or a comment the character changes nothing.
  read_char-stays :
      (st : QuoteState) (k : CharClass) (nx p a b c : ℕ)
      → stays st k ≡ true
      → read_char w nx k (place st p a b c s) ≡ place st p a b c s
  unfolding read_char
  read_char-stays single_quoting k nx p a b c h = ground arith
  read_char-stays double_quoting k nx p a b c h = ground arith
  read_char-stays dashing_state k nx p a b c h = ground arith
  read_char-stays ccomment k nx p a b c h = ground arith
  read_char-stays hope_to_ccomment k nx p a b c h = ground arith
  read_char-stays st k nx p a b c h = ground arith

  is_boundary-stays :
      (st : QuoteState) (k : CharClass) (p a b c : ℕ)
      → stays st k ≡ true
      → is_boundary k (place st p a b c s) ≡ false
  unfolding is_boundary
  is_boundary-stays single_quoting k p a b c h = ground arith
  is_boundary-stays double_quoting k p a b c h = ground arith
  is_boundary-stays dashing_state k p a b c h = ground arith
  is_boundary-stays ccomment k p a b c h = ground arith
  is_boundary-stays hope_to_ccomment k p a b c h = ground arith
  is_boundary-stays st k p a b c h = ground arith

  ne-nul_stays : (st : QuoteState) (k : CharClass) → stays st k ≡ true → k ≢ nul
  ne-nul_stays st k h e = go st (subst (λ k. stays st k ≡ true) e h)
    where
      go : (st : QuoteState) → stays st nul ≡ true → ⊥
      go single_quoting h = cc
      go st h = cc

  pub scan-content :
      (st : QuoteState) (cs rest : List ℕ) (p a b c : ℕ)
      → IsContent st cs
      → scan_from w (cs ++ rest) (place st p a b c s)
        ≡ scan_from w rest (place st (p + length cs) a b c s)
  scan-content st [] rest p a b c h = ap (λ n. scan_from w rest (place st n a b c s)) (omega arith)
  scan-content st (x ∷ cs) rest p a b c (h, hs) =
      scan-step w x (cs ++ rest) (place st p a b c s) (classify x) refl
        (ne-nul_stays st (classify x) h) (is_boundary-stays st (classify x) p a b c h)
      ∙ ap (λ t. scan_from w (cs ++ rest) (step t))
          (read_char-stays st (classify x) (head_char (cs ++ rest)) p a b c h)
      ∙ scan-content st cs rest (p + 1) a b c hs
      ∙ ap (λ n. scan_from w rest (place st n a b c s)) (omega arith)

  module _ (cs : List ℕ) (p x y z : ℕ) where
    pub open_single :
        scan_from w (39 ∷ cs) (place normal_state p x y z s)
        ≡ scan_from w cs (place single_quoting (p + 1) x y z s)
    unfolding scan_from
    open_single = refl

    pub close_single :
        scan_from w (39 ∷ cs) (place single_quoting p x y z s)
        ≡ scan_from w cs (place normal_state (p + 1) x y z s)
    unfolding scan_from
    close_single = refl

    pub open_double :
        scan_from w (34 ∷ cs) (place normal_state p x y z s)
        ≡ scan_from w cs (place double_quoting (p + 1) x y z s)
    unfolding scan_from
    open_double = refl

    pub close_double :
        scan_from w (34 ∷ cs) (place double_quoting p x y z s)
        ≡ scan_from w cs (place normal_state (p + 1) x y z s)
    unfolding scan_from
    close_double = refl

    pub open_line :
        scan_from w (b'-' ∷ b'-' ∷ cs) (place normal_state p x y z s)
        ≡ scan_from w cs (place dashing_state (p + 1 + 1) x y z s)
    unfolding scan_from
    open_line = refl

    pub close_line :
        scan_from w (10 ∷ cs) (place dashing_state p x y z s)
        ≡ scan_from w cs (place normal_state (p + 1) x y z s)
    unfolding scan_from
    close_line = refl

    pub open_block :
        scan_from w (b'/' ∷ b'*' ∷ cs) (place normal_state p x y z s)
        ≡ scan_from w cs (place ccomment (p + 1 + 1) x y z s)
    unfolding scan_from
    open_block = refl

    pub close_block :
        scan_from w (b'*' ∷ b'/' ∷ cs) (place ccomment p x y z s)
        ≡ scan_from w cs (place normal_state (p + 1 + 1) x y z s)
    unfolding scan_from
    close_block = refl

    -- One bracket more.
    abbrev pub opened : Bracket → Scan
    opened paren = place normal_state (p + 1) (x + 1) y z s
    opened broket = place normal_state (p + 1) x (y + 1) z s
    opened squiggle = place normal_state (p + 1) x y (z + 1) s

    pub open_bracket :
        (b : Bracket)
        → scan_from w (open_char b ∷ cs) (place normal_state p x y z s) ≡ scan_from w cs (opened b)
    unfolding scan_from
    open_bracket paren = rw (count_up x, scan_from)
    open_bracket broket = rw (count_up y, scan_from)
    open_bracket squiggle = rw (count_up z, scan_from)

    abbrev pub before_closing : Bracket → Scan
    before_closing paren = place normal_state p (x + 1) y z s
    before_closing broket = place normal_state p x (y + 1) z s
    before_closing squiggle = place normal_state p x y (z + 1) s

    pub close_bracket :
        (b : Bracket)
        → scan_from w (close_char b ∷ cs) (before_closing b)
          ≡ scan_from w cs (place normal_state (p + 1) x y z s)
    unfolding scan_from
    close_bracket paren = rw (count_down x, scan_from)
    close_bracket broket = rw (count_down y, scan_from)
    close_bracket squiggle = rw (count_down z, scan_from)

  -- Within a bracket a semicolon is plain.
  abbrev pub IsDeep : Bool → ℕ → Type 0
  IsDeep true n = 0 < n
  IsDeep false n = Unit

  read_char_plain :
      (nested : Bool) (k : CharClass) (nx p x y z : ℕ)
      → is_plain nested k ≡ true
      → IsDeep nested (x + y + z)
      → read_char w nx k (place normal_state p x y z s) ≡ place normal_state p x y z s
  unfolding read_char
  read_char_plain true k nx p x y z h d = ground arith
  read_char_plain false k nx p x y z h d = ground arith

  is_boundary_plain :
      (nested : Bool) (k : CharClass) (p x y z : ℕ)
      → is_plain nested k ≡ true
      → IsDeep nested (x + y + z)
      → is_boundary k (place normal_state p x y z s) ≡ false
  unfolding is_boundary
  is_boundary_plain true k p x y z h d = ground arith
  is_boundary_plain false k p x y z h d = ground arith

  ne-nul_plain : (nested : Bool) (k : CharClass) → is_plain nested k ≡ true → k ≢ nul
  ne-nul_plain true k h e = let g = subst (λ k. is_plain true k ≡ true) e h in cc
  ne-nul_plain false k h e = let g = subst (λ k. is_plain false k ≡ true) e h in cc

  pub plain-step :
      (nested : Bool) (c : ℕ) (cs : List ℕ) (p x y z : ℕ)
      → is_plain nested (classify c) ≡ true
      → IsDeep nested (x + y + z)
      → scan_from w (c ∷ cs) (place normal_state p x y z s)
        ≡ scan_from w cs (place normal_state (p + 1) x y z s)
  plain-step nested c cs p x y z h d =
      scan-step w c cs (place normal_state p x y z s) (classify c) refl
        (ne-nul_plain nested (classify c) h) (is_boundary_plain nested (classify c) p x y z h d)
      ∙ ap (λ t. scan_from w cs (step t))
          (read_char_plain nested (classify c) (head_char cs) p x y z h d)

  pub not_dash : (nested : Bool) (c : ℕ) → is_plain nested (classify c) ≡ true → (c == b'-') ≡ false
  unfolding classify
  not_dash true c h = ground arith
  not_dash false c h = ground arith

  pub dash-step :
      (c : ℕ) (cs : List ℕ) (p x y z : ℕ)
      → (c == b'-') ≡ false
      → scan_from w (b'-' ∷ c ∷ cs) (place normal_state p x y z s)
        ≡ scan_from w (c ∷ cs) (place normal_state (p + 1) x y z s)
  unfolding read_char scan_from
  dash-step c cs p x y z h =
      scan-step w b'-' (c ∷ cs) (place normal_state p x y z s) dash refl (λ e. cc) refl
      ∙ ap
          (λ b. scan_from w (c ∷ cs) (
            step (record (place normal_state p x y z s) {
              state = if b then hope_to_dash else normal_state;
            })))
          h
