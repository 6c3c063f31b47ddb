-- ===== src/Misc/Chunks.antt =====
-- How write_syslog() of src/slon/misc.c divides a line.
use slony1_engine.Base.{
  ℕ, zero, suc, ◌-◌, ◌≤◌, ◌<◌, ◌≡◌, refl, sym, ap, ◌∙◌, true, false, some, List, [], ◌∷◌, ◌++◌,
  if◌then◌else◌, length, ltb, ◌==◌, arith, Bool-cases, inl, inr, take, drop, All, append-nil,
}
use slony1_engine.Misc.{
  SyslogMessage, syslog_limit, line_start, last_space, chunk_length, syslog_chunks, has_newline,
  write_syslog,
}

-- What a line says: its characters without the newlines.
unfoldable pub without_newlines : List ℕ → List ℕ
without_newlines [] = []
without_newlines (c ∷ cs) = if c == 10 then without_newlines cs else c ∷ without_newlines cs

abbrev pub texts : List SyslogMessage → List ℕ
texts [] = []
texts (m ∷ ms) = m.text ++ texts ms

abbrev pub IsShort : SyslogMessage → Type 0
IsShort m = length m.text ≤ syslog_limit

last_space_bound : (i : ℕ) (buf : List ℕ) → last_space i buf ≤ i
unfolding last_space
last_space_bound zero buf = omega arith
last_space_bound (suc i) buf = ground (arith, last_space_bound i buf)

chunk_length_bounds :
    (buf line : List ℕ)
    → 0 < length buf
    → (0 < chunk_length buf line) × (chunk_length buf line ≤ length buf)
unfolding chunk_length
chunk_length_bounds buf line h = ground (arith, last_space_bound (length buf - 1) buf)

line_start_bound : (n : ℕ) (line : List ℕ) → length (line_start n line) ≤ n
unfolding line_start
line_start_bound zero line = omega arith
line_start_bound (suc n) [] = omega arith
line_start_bound (suc n) (c ∷ cs) = ground (arith, line_start_bound n cs)

line_start_full :
    (n c : ℕ) (cs : List ℕ) → (c == 10) ≡ false → 0 < length (line_start (suc n) (c ∷ cs))
unfolding line_start
line_start_full n c cs h = rw h (omega arith)

length-drop : (n : ℕ) (xs : List ℕ) → length (drop n xs) ≡ length xs - n
unfolding drop
length-drop zero xs = omega arith
length-drop (suc n) [] = omega arith
length-drop (suc n) (x ∷ xs) = omega (arith, length-drop n xs)

length-take : (n : ℕ) (xs : List ℕ) → length (take n xs) ≤ length xs
unfolding take
length-take zero xs = omega arith
length-take (suc n) [] = omega arith
length-take (suc n) (x ∷ xs) = omega (arith, length-take n xs)

-- A chunk and what the rest says are what the line says.
take-line_start :
    (n limit : ℕ) (line : List ℕ)
    → n ≤ length (line_start limit line)
    → take n (line_start limit line) ++ without_newlines (drop n line) ≡ without_newlines line
unfolding take drop line_start without_newlines
take-line_start zero limit line h = refl
take-line_start (suc n) zero line h = absurd (omega arith)
take-line_start (suc n) (suc limit) [] h = absurd (omega arith)
take-line_start (suc n) (suc limit) (c ∷ cs) h = elim (Bool-cases (c == 10)) [
  | inl newline ↦ absurd (ground arith)
  | inr other ↦
      rw other (ap (λ (t : List ℕ). c ∷ t) (take-line_start n limit cs (below (rw other at h))))
]
  where
    below : suc n ≤ suc (length (line_start limit cs)) → n ≤ length (line_start limit cs)
    below k = omega arith

-- The messages say what the line says, and each is short.
abbrev Divides : List ℕ → List SyslogMessage → Type 0
Divides line ms = (texts ms ≡ without_newlines line) × All IsShort ms

-- One chunk of n characters, and the rest.
chunk_then :
    (n seq nr : ℕ) (line : List ℕ) (ms : List SyslogMessage)
    → n ≤ length (line_start syslog_limit line)
    → Divides (drop n line) ms
    → Divides line (
        record { seq = seq; chunk_nr = some nr; text = take n (line_start syslog_limit line) } ∷ ms)
chunk_then n seq nr line ms h d = (
  ap (λ t. take n (line_start syslog_limit line) ++ t) d.0 ∙ take-line_start n syslog_limit line h,
  (
    omega (arith, length-take n (line_start syslog_limit line), line_start_bound syslog_limit line),
    d.1,
  ),
)

syslog_chunks-Divides :
    (fuel seq chunk_nr : ℕ) (line : List ℕ)
    → length line ≤ fuel
    → Divides line (syslog_chunks fuel seq chunk_nr line)
unfolding syslog_chunks without_newlines
syslog_chunks-Divides zero seq chunk_nr [] h = (refl, tt)
syslog_chunks-Divides zero seq chunk_nr (c ∷ cs) h = absurd (omega arith)
syslog_chunks-Divides (suc fuel) seq chunk_nr [] h = (refl, tt)
syslog_chunks-Divides (suc fuel) seq chunk_nr (c ∷ cs) h =
    let buf = line_start syslog_limit (c ∷ cs) in
    let n = chunk_length buf (c ∷ cs) in
    elim (Bool-cases (c == 10)) [
      | inl newline ↦ ground (arith, syslog_chunks-Divides fuel seq chunk_nr cs (omega arith))
      | inr other ↦
          let bounds = chunk_length_bounds buf (c ∷ cs) (line_start_full 127 c cs other) in
          ground (
            arith,
            chunk_then n seq (suc chunk_nr) (c ∷ cs)
                (syslog_chunks fuel seq (suc chunk_nr) (drop n (c ∷ cs))) bounds.1
                (syslog_chunks-Divides fuel seq (suc chunk_nr) (drop n (c ∷ cs))
                  (omega (arith, bounds.0, length-drop n (c ∷ cs)))),
          )
    ]

without_newlines_same : (line : List ℕ) → has_newline line ≡ false → without_newlines line ≡ line
unfolding has_newline without_newlines
without_newlines_same [] h = refl
without_newlines_same (c ∷ cs) h = ground (arith, without_newlines_same cs)

-- With syslog in use every line ends up in syslog as a whole: put together, the messages are the
-- line without its newlines, and no message is longer than 128 characters. As many rounds of the
-- loop as the line has characters are enough.
pub write_syslog-Divides :
    (line : List ℕ) (seq : ℕ)
    → (texts (write_syslog true line seq).1 ≡ without_newlines line)
      × All IsShort (write_syslog true line seq).1
unfolding write_syslog
write_syslog-Divides line seq =
    let divided : Divides line (syslog_chunks (length line) (suc seq) 0 line) =
      syslog_chunks-Divides (length line) (suc seq) 0 line (omega arith) in
    elim (Bool-cases (ltb syslog_limit (length line))) [
      | inl long ↦ rw long divided
      | inr short ↦ elim (Bool-cases (has_newline line)) [
        | inl several ↦ rw (short, several) divided
        | inr one ↦
            rw (short, one)
              (append-nil line ∙ sym (without_newlines_same line one), (ground arith, tt))
      ]
    ]
