-- ===== src/Execution/Pieces.antt =====
-- A command's output cut into pieces: `process_data` of lib/src/execution/execution.cc.
use Prim.Native.String.{[], ◌∷◌}
use text.Mathlib.TextLemmas.{append_assoc, append-nil, nil-append, cons-append}
use facter.Base.{
  String, ◌≡◌, refl, sym, ap, ◌∙◌, Bool, true, false, none, some, List, [], ◌∷◌, ◌++◌,
  if◌then◌else◌, is_empty_str, is_empty, ◌<>◌, arith, Bool-cases, Option-cases, inl, inr,
}
use facter.Execution.{
  is_newline, last_newline, save, Stream, Progress, going, finished, pass, pass_all, process_data,
  process_pieces,
}

-- The texts one after the other, with nothing between them.
unfoldable pub joined : List String → String
joined [] = []
joined (s ∷ l) = s <> joined l

unfoldable pub without_newlines : String → String
without_newlines [] = []
without_newlines (c ∷ s) = let rest = without_newlines s in if is_newline c then rest else c ∷ rest

-- All that was passed to the callback or is buffered.
abbrev pub held : Stream → String
unfolding joined
held st = joined st.lines <> st.buffer

without-append :
    (s t : String) → without_newlines (s <> t) ≡ without_newlines s <> without_newlines t
unfolding without_newlines
without-append [] t = rw (nil-append t, nil-append (without_newlines t))
without-append (c ∷ s) t = rw cons-append (elim (Bool-cases (is_newline c)) [
  | inl e ↦ rw e (without-append s t)
  | inr e ↦ rw (e, cons-append) (ap (λ x. c ∷ x) (without-append s t))
])

joined-append : (l m : List String) → joined (l ++ m) ≡ joined l <> joined m
unfolding joined
joined-append [] m = sym (nil-append (joined m))
joined-append (s ∷ l) m =
    ap (λ x. s <> x) (joined-append l m) ∙ sym (append_assoc s (joined l) (joined m))

empty_eq : (s : String) → is_empty_str s ≡ true → s ≡ []
empty_eq [] h = refl
empty_eq (c ∷ s) h = ground arith

last_newline-append :
    (s before rest : String) → last_newline s ≡ some (before, rest) → before <> rest ≡ s
unfolding last_newline
last_newline-append [] before rest h = ground arith
last_newline-append (c ∷ s) before rest h = elim (Option-cases (last_newline s)) [
  | inr ((b, r), e) ↦
      let whole = last_newline-append s b r e in
      let first : c ∷ b ≡ before = ground (arith, e) in
      let same : r ≡ rest = ground (arith, e) in
      rw (← first, ← same, cons-append) (ap (λ x. c ∷ x) whole)
  | inl e ↦
      let first : [] ≡ before = ground (arith, e) in
      let same : c ∷ s ≡ rest = ground (arith, e) in rw (← first, ← same, nil-append) refl
]

joined-last : (l : List String) (t : String) → joined (l ++ t ∷ []) <> "" ≡ joined l <> t
unfolding joined
joined-last l t =
    append-nil (joined (l ++ t ∷ []))
    ∙ joined-append l (t ∷ [])
    ∙ ap (λ x. joined l <> x) (append-nil t)

-- After a line the buffer is empty, and the line is held behind what was.
abbrev pub Held : String → Stream → Progress → Type 0
Held text st (going st') = (held st' ≡ held st <> text) × (st'.buffer ≡ [])
Held text st (finished st') = Unit

-- All but line ends of the text is held behind what was.
abbrev pub IsKept : String → Stream → Progress → Type 0
IsKept text st (going st') = without_newlines (held st') ≡ without_newlines (held st <> text)
IsKept text st (finished st') = Unit

IsKept-after :
    (piece more : String) (st st' : Stream) (p : Progress)
    → without_newlines (held st') ≡ without_newlines (held st <> piece)
    → IsKept more st' p
    → IsKept (piece <> more) st p
IsKept-after piece more st st' (finished x) e h = tt
IsKept-after piece more st st' (going x) e h =
    h
    ∙ without-append (held st') more
    ∙ ap (λ t. t <> without_newlines more) e
    ∙ sym (without-append (held st <> piece) more)
    ∙ ap without_newlines (append_assoc (held st) piece more)

Held-after :
    (line text : String) (st st' : Stream) (p : Progress)
    → held st' ≡ held st <> line
    → Held text st' p
    → Held (line <> text) st p
Held-after line text st st' (going x) e h =
    (h.0 ∙ ap (λ t. t <> text) e ∙ append_assoc (held st) line text, h.1)
Held-after line text st st' (finished x) e h = tt

then-Held :
    (line text : String) (st : Stream) (p : Progress) (k : Stream → Progress)
    → Held line st p
    → ((st' : Stream) → st'.buffer ≡ [] → Held text st' (k st'))
    → Held (line <> text) st (elim p [ finished st' ↦ finished st' | going st' ↦ k st' ])
then-Held line text st (finished st') k h f = tt
then-Held line text st (going st') k h f = Held-after line text st st' (k st') h.0 (f st' h.1)

-- The lines before the last line end were passed, and what begins with it is buffered.
saved_lem :
    (before rest lines : String) (st st' : Stream)
    → held st' ≡ held st <> lines
    → st'.buffer ≡ []
    → without_newlines lines ≡ without_newlines before
    → without_newlines (joined st'.lines <> rest) ≡ without_newlines (held st <> (before <> rest))
unfolding held
saved_lem before rest lines st st' h b w =
    let passed : joined st'.lines ≡ held st <> lines =
      sym (append-nil (joined st'.lines)) ∙ ap (λ x. joined st'.lines <> x) (sym b) ∙ h in
    without-append (joined st'.lines) rest
    ∙ ap (λ x. without_newlines x <> without_newlines rest) passed
    ∙ ap (λ x. x <> without_newlines rest) (without-append (held st) lines)
    ∙ append_assoc (without_newlines (held st)) (without_newlines lines) (without_newlines rest)
    ∙ ap (λ x. without_newlines (held st) <> (x <> without_newlines rest)) w
    ∙ ap (λ x. without_newlines (held st) <> x) (sym (without-append before rest))
    ∙ sym (without-append (held st) (before <> rest))

module _ (split : String → List String) (callback : List String → String → Bool) where
  pass-Held : (line : String) (st : Stream) → Held line st (pass split none callback line st)
  unfolding pass held joined
  pass-Held line st = elim (Bool-cases (is_empty_str (st.buffer <> line))) [
    | inl e ↦
        rw e (sym (append_assoc (joined st.lines) st.buffer line), empty_eq (st.buffer <> line) e)
    | inr e ↦ elim (Bool-cases (callback st.lines (st.buffer <> line))) [
      | inl g ↦
          rw (e, g)
            (
              joined-last st.lines (st.buffer <> line)
                  ∙ sym (append_assoc (joined st.lines) st.buffer line),
              refl,
            )
      | inr g ↦ rw (e, g) tt
    ]
  ]

  pass_all-Held :
      (line : String) (lines : List String) (st : Stream)
      → Held (joined (line ∷ lines)) st (pass_all split none callback (line ∷ lines) st)
  unfolding pass_all joined
  pass_all-Held line [] st =
      then-Held line "" st (pass split none callback line st) going (pass-Held line st)
        λ st' b. (sym (append-nil (held st')), b)
  pass_all-Held line (next ∷ rest) st =
      then-Held line (joined (next ∷ rest)) st (pass split none callback line st)
        (λ st'. pass_all split none callback (next ∷ rest) st') (pass-Held line st)
        λ st' b. pass_all-Held next rest st'

  pass_all-kept :
      (lines : List String) (st : Stream)
      → is_empty lines ≡ false
      → Held (joined lines) st (pass_all split none callback lines st)
  pass_all-kept [] st h = ground arith
  pass_all-kept (line ∷ lines) st h = pass_all-Held line lines st

  save-IsKept :
      (before rest lines piece : String) (st : Stream) (p : Progress)
      → before <> rest ≡ piece
      → Held lines st p
      → without_newlines lines ≡ without_newlines before
      → IsKept piece st (save split none rest p)
  unfolding held joined
  save-IsKept before rest lines piece st (going st') e h w =
      saved_lem before rest lines st st' h.0 h.1 w ∙ ap (λ x. without_newlines (held st <> x)) e
  save-IsKept before rest lines piece st (finished st') e h w = tt

  module _ (tokens : (s : String) → is_empty (split s) ≡ false)
      (text : (s : String) → without_newlines (joined (split s)) ≡ without_newlines s) where
    process_data-IsKept :
        (piece : String) (st : Stream)
        → IsKept piece st (process_data split none (some callback) piece st)
    unfolding process_data held joined
    process_data-IsKept piece st = elim (Bool-cases (is_empty_str piece)) [
      | inl e ↦ rw e (
          sym (
            ap without_newlines (ap (λ x. held st <> x) (empty_eq piece e) ∙ append-nil (held st))))
      | inr e ↦ elim (Option-cases (last_newline piece)) [
        | inl l ↦
            rw (e, l) (ap without_newlines (sym (append_assoc (joined st.lines) st.buffer piece)))
        | inr ((before, rest), l) ↦
            rw (e, l)
              (save-IsKept before rest (joined (split before)) piece st
                (pass_all split none callback (split before) st)
                (last_newline-append piece before rest l)
                (pass_all-kept (split before) st (tokens before)) (text before))
      ]
    ]

    IsKept-then :
        (piece more : String) (st : Stream) (p : Progress) (k : Stream → Progress)
        → IsKept piece st p
        → ((st' : Stream) → IsKept more st' (k st'))
        → IsKept (piece <> more) st (elim p [ finished st' ↦ finished st' | going st' ↦ k st' ])
    IsKept-then piece more st (finished st') k h f = tt
    IsKept-then piece more st (going st') k h f = IsKept-after piece more st st' (k st') h (f st')

    -- Without trimming, as long as the callback goes on, the lines passed to it and what is buffered
    -- are the pieces of the output one after the other but for line ends, where the splitting
    -- gives a token at least and keeps all but line ends. Nothing is lost or reordered, wherever the
    -- pieces were cut.
    pub process_pieces-IsKept :
        (pieces : List String) (st : Stream)
        → IsKept (joined pieces) st (process_pieces split none (some callback) pieces st)
    unfolding process_pieces joined
    process_pieces-IsKept [] st = ap without_newlines (sym (append-nil (held st)))
    process_pieces-IsKept (piece ∷ pieces) st =
        IsKept-then piece (joined pieces) st (process_data split none (some callback) piece st)
          (λ st'. process_pieces split none (some callback) pieces st')
          (process_data-IsKept piece st) λ st'. process_pieces-IsKept pieces st'
