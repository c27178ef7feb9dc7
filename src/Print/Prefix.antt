-- ===== src/Print/Prefix.antt =====
-- What `vsbufprintf` writes: the first bytes of the formatted text.
use mathlib.Core.List.{append_assoc}
use pinyon.Prelude.{
  ℕ, zero, suc, ◌+◌, ◌-◌, ◌≤◌, ◌<◌, ◌≡◌, refl, sym, ap, subst, ◌∙◌, ◌⊎◌, inl, inr, arith, Bool,
  true, false, Bool-cases, ◌==◌, Option, some, List, [], ◌∷◌, ◌++◌, length, length-append,
}
use pinyon.Strings.Compare.{IsText, strlen-text}
use pinyon.Print.{
  Arg, take, drop, char_at, type_position, format_loop, try_add_wrapper, vfnprintf, vsbufprintf,
}
use pinyon.Print.Adds.{
  length-take, length-take_le, take-nil, take-append, take-append_front, length-drop, take-full,
  try_add_wrapper-take,
}
use pinyon.Print.Directives.{Prints, Prints-Formats}
use pinyon.Print.Rounds.{
  Formats, ends, bails, literal, adds, type_position-after, format_loop-end, format_loop-literal,
  format_loop-bails, format_loop-full, format_loop-adds,
}

-- The loop stopped with the first bytes of a text, at most `m`, written behind `W` and terminated.
abbrev Stopped : (m : ℕ) (W tail text : List ℕ) → Option (Bool × (ℕ × List ℕ)) → Type 0
Stopped m W tail text result =
    (ok : Bool) × (rest : List ℕ) × (result
      ≡ some (ok, (length W + length (take m text), W ++ (take m text ++ (0 ∷ rest)))))
    × (suc (length (take m text) + length rest) ≡ length tail)

abbrev IsReady : (tail text : List ℕ) → Type 0
IsReady tail text = ((rest : List ℕ) × (tail ≡ 0 ∷ rest)) ⊎ (0 < length text)

same_state :
    (ok : Bool) (n n' : ℕ) (buf buf' : List ℕ)
    → n ≡ n'
    → buf ≡ buf'
    → ◌≡◌ {A = Option (Bool × (ℕ × List ℕ))} (some (ok, (n, buf))) (some (ok, (n', buf')))
same_state ok n n' buf buf' e f =
    ap (λ (k : ℕ). some (ok, (k, buf))) e ∙ ap (λ (b : List ℕ). some (ok, (n', b))) f

-- Nothing more is written.
Stopped-here :
    (m : ℕ) (W tail : List ℕ) (ok : Bool) (result : Option (Bool × (ℕ × List ℕ)))
    → IsReady tail []
    → result ≡ some (ok, (length W, W ++ tail))
    → Stopped m W tail [] result
Stopped-here m W tail ok result (inl (rest, e)) run =
    let none_left = take-nil m in
    (
      ok,
      rest,
      run
          ∙ same_state ok _ _ _ _ (omega (arith, ap length none_left)) (
              ap (λ (t : List ℕ). W ++ t)
                (e ∙ ap (λ (t : List ℕ). t ++ (0 ∷ rest)) (sym none_left))),
      omega (arith, ap length none_left, ap length e),
    )
Stopped-here m W tail ok result (inr less) run = absurd (omega arith)

-- The state after one text.
abbrev left : (m : ℕ) (tail cs : List ℕ) → List ℕ
left m tail cs = drop (suc (length (take m cs))) tail

-- A text was added, and the loop went on behind it.
Stopped-later :
    (m : ℕ) (W tail cs text : List ℕ) (result : Option (Bool × (ℕ × List ℕ)))
    → m < length tail
    → Stopped (m - length (take m cs)) (W ++ take m cs) (0 ∷ left m tail cs) text result
    → Stopped m W tail (cs ++ text) result
Stopped-later m W tail cs text result room (ok, rest, run, len) =
    let whole = take-append m cs text in
    let first = take m cs in
    let more = take (m - length first) text in
    let n = length-append W first in
    let l = ap length whole ∙ length-append first more in
    (
      ok,
      rest,
      run
          ∙ same_state ok _ _ _ _ (omega (arith, n, l)) (
              append_assoc W first (more ++ (0 ∷ rest))
              ∙ ap (λ (t : List ℕ). W ++ t)
                  (sym (append_assoc first more (0 ∷ rest))
                    ∙ ap (λ (t : List ℕ). t ++ (0 ∷ rest)) (sym whole))),
      omega
          (arith, len, l, length-drop (suc (length first)) tail (omega (arith, length-take m cs))),
    )

module _ (view : List ℕ) (bufsize : ℕ) where
  -- The wrapper with its state written by what is in front.
  added :
      (m : ℕ) (W tail cs x : List ℕ)
      → bufsize ≡ length W + 1 + m
      → m < length tail
      → IsText cs
      → try_add_wrapper bufsize (cs ++ (0 ∷ x)) (length W, W ++ tail)
        ≡ some (
          length (take m cs) == length cs,
          (length (W ++ take m cs), (W ++ take m cs) ++ (0 ∷ left m tail cs)),
        )
  added m W tail cs x e room texts =
      try_add_wrapper-take bufsize m W tail cs x e room texts
      ∙ same_state (length (take m cs) == length cs) _ _ _ _ (sym (length-append W (take m cs)))
          (sym (append_assoc W (take m cs) (0 ∷ left m tail cs)))

  room_left :
      (m : ℕ) (tail cs : List ℕ)
      → m < length tail
      → m - length (take m cs) < length (0 ∷ left m tail cs)
  room_left m tail cs room = omega (
    arith,
    length-take m cs,
    length-drop (suc (length (take m cs))) tail (omega (arith, length-take m cs)),
  )

  space_left :
      (m : ℕ) (W cs : List ℕ)
      → bufsize ≡ length W + 1 + m
      → bufsize ≡ length (W ++ take m cs) + 1 + (m - length (take m cs))
  space_left m W cs e = omega (arith, length-append W (take m cs), length-take m cs)

  -- A text that does not fit fills the buffer.
  Stopped-full :
      (m : ℕ) (W tail cs text : List ℕ) (result : Option (Bool × (ℕ × List ℕ)))
      → m < length tail
      → (length (take m cs) == length cs) ≡ false
      → result ≡ some (false, (length (W ++ take m cs), (W ++ take m cs) ++ (0 ∷ left m tail cs)))
      → Stopped m W tail (cs ++ text) result
  Stopped-full m W tail cs text result room cut run =
      let full = take-full m cs (ground (arith, cut, length-take_le m cs)) in
      let none_left : m - length (take m cs) ≡ 0 = omega (arith, full) in
      Stopped-later m W tail cs text result room (
        subst (λ (k : ℕ). Stopped k (W ++ take m cs) (0 ∷ left m tail cs) text result)
          (sym none_left)
          (false, left m tail cs, run ∙ same_state false _ _ _ _ (omega arith) refl, omega arith))

  format_loop-Stopped :
      (fuel position : ℕ) (args : List Arg) (text : List ℕ)
      → Formats view position args text
      → (m : ℕ) (W tail : List ℕ) → 0 < fuel
      → length view < fuel + position
      → bufsize ≡ length W + 1 + m
      → m < length tail
      → IsReady tail text
      → Stopped m W tail text
          (format_loop (try_add_wrapper bufsize) fuel view position args (length W, W ++ tail))
  format_loop-Stopped zero position args text f m W tail some_fuel enough e room ready =
      absurd (omega arith)
  format_loop-Stopped (suc fuel) _ _ _ (ends past) m W tail some_fuel enough e room ready =
      Stopped-here m W tail true _ ready
        (format_loop-end (try_add_wrapper bufsize) fuel view _ _ _ past)
  format_loop-Stopped (suc fuel) _ _ _ (bails before percent c) m W tail some_fuel enough e room
        ready =
      Stopped-here m W tail false _ ready
        (format_loop-bails (try_add_wrapper bufsize) fuel view _ _ _ before percent c)
  format_loop-Stopped (suc fuel) _ _ _ (literal {position} {args} {text} before other some_char f) m
        W tail some_fuel enough e room ready =
      let cs = char_at view position ∷ [] in
      let add = try_add_wrapper bufsize in
      let t : ℕ × List ℕ = (length W, W ++ tail) in
      let step =
        format_loop-literal add fuel view position args t _ _ before other
          (added m W tail cs [] e room (some_char, tt)) in
      let rest =
        format_loop-Stopped fuel (position + 1) args text f (m - length (take m cs))
          (W ++ take m cs) (0 ∷ left m tail cs) (omega arith) (omega arith) (space_left m W cs e)
          (room_left m tail cs room) (inl (left m tail cs, refl)) in
      Stopped-later m W tail cs text (format_loop add (suc fuel) view position args t) room (
        subst (λ r. Stopped (m - length (take m cs)) (W ++ take m cs) (0 ∷ left m tail cs) text r)
          (sym step) rest)
  format_loop-Stopped (suc fuel) _ _ _
        (adds {position} {args} {args'} {text} cs x before percent c texts f) m W tail some_fuel
        enough e room ready =
      let add = try_add_wrapper bufsize in
      let t : ℕ × List ℕ = (length W, W ++ tail) in
      let run = added m W tail cs x e room texts in
      let next : ℕ × List ℕ = (length (W ++ take m cs), (W ++ take m cs) ++ (0 ∷ left m tail cs)) in
      elim (Bool-cases (length (take m cs) == length cs)) [
        | inr cut ↦
            Stopped-full m W tail cs text (format_loop add (suc fuel) view position args t) room cut
              (format_loop-full add fuel view position args t (cs ++ (0 ∷ x)) args' _ before percent
                c (run ∙ ap (λ (b : Bool). some (b, next)) cut))
        | inl fits ↦
            let step =
              format_loop-adds add fuel view position args t (cs ++ (0 ∷ x)) args' _ before percent
                c (run ∙ ap (λ (b : Bool). some (b, next)) fits) in
            let rest =
              format_loop-Stopped fuel (type_position view position + 1) args' text f
                (m - length (take m cs)) (W ++ take m cs) (0 ∷ left m tail cs) (omega arith)
                (omega (arith, type_position-after view position)) (space_left m W cs e)
                (room_left m tail cs room) (inl (left m tail cs, refl)) in
            Stopped-later m W tail cs text (format_loop add (suc fuel) view position args t) room (
              subst
                (λ r. Stopped (m - length (take m cs)) (W ++ take m cs) (0 ∷ left m tail cs) text r)
                (sym step) rest)
      ]

vsbufprintf-loop :
    (buf : List ℕ) (bufsize : ℕ) (view x : List ℕ) (args : List Arg) (ok : Bool)
    (state : ℕ × List ℕ)
    → IsText view
    → 0 < bufsize
    → format_loop (try_add_wrapper bufsize) (length view + 1) view 0 args (0, buf)
      ≡ some (ok, state)
    → vsbufprintf buf bufsize (view ++ (0 ∷ x)) args ≡ some state
unfolding vsbufprintf vfnprintf
vsbufprintf-loop buf bufsize view x args ok state texts some_room run =
    let d : (bufsize == 0) ≡ false = ground (arith, some_room) in
    rw (d, strlen-text view x texts, take-append_front view (0 ∷ x), run) refl

-- Let a terminated format ask for a text of the arguments by its chars alone: its plain chars, `%%`,
-- `%s`, `%c`, `%u` and `%d`, with `#`, `l` or `z` in front of the type char, up to the end or an unknown
-- type char, without `%x`, `%p` and the least integer. If the text is not empty, it is printed into a
-- buffer of at least `bufsize` bytes, above 0: the call returns, the buffer starts with the first
-- `bufsize - 1` chars of the text, or all of them, and a terminator, it is as long as before, and the
-- result is how many chars were written.
pub vsbufprintf-take :
    (buf : List ℕ) (bufsize : ℕ) (view x : List ℕ) (args : List Arg) (text : List ℕ)
    → IsText view
    → 0 < bufsize
    → bufsize ≤ length buf
    → 0 < length text
    → Prints view args text
    → (rest : List ℕ) × (vsbufprintf buf bufsize (view ++ (0 ∷ x)) args
        ≡ some (length (take (bufsize - 1) text), take (bufsize - 1) text ++ (0 ∷ rest)))
      × (suc (length (take (bufsize - 1) text) + length rest) ≡ length buf)
vsbufprintf-take buf bufsize view x args text texts some_room inside some_text p =
    let f = Prints-Formats view 0 p refl in
    let (ok, rest, run, len) =
      format_loop-Stopped view bufsize (length view + 1) 0 args text f (bufsize - 1) [] buf
        (omega arith) (omega arith) (omega arith) (omega arith) (inr some_text) in
    (
      rest,
      vsbufprintf-loop buf bufsize view x args ok _ texts some_room run
          ∙ ap (λ (n : ℕ). some (n, take (bufsize - 1) text ++ (0 ∷ rest))) (omega arith),
      len,
    )
