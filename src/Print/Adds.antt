-- ===== src/Print/Adds.antt =====
-- One text added to the buffer by the wrapper of `vsbufprintf`.
use pinyon.Prelude.{
  ℕ, zero, suc, ◌+◌, ◌-◌, ◌≤◌, ◌<◌, ◌≡◌, refl, sym, ap, ◌∙◌, arith, true, false, not, ◌&&◌, ltb,
  ◌==◌, some, List, [], ◌∷◌, ◌++◌, length,
}
use pinyon.Strings.{strbufcopy, strbufcopy_loop}
use pinyon.Strings.Compare.{IsText, strlen-text}
use pinyon.Print.{take, drop, try_add_wrapper}

strbufcopy_loop-take :
    (copied m : ℕ) (cs x buf : List ℕ)
    → IsText cs
    → m < length buf
    → strbufcopy_loop copied (copied + 1 + m) (cs ++ (0 ∷ x)) buf
      ≡ some (copied + length (take m cs), take m cs ++ (0 ∷ drop (suc (length (take m cs))) buf))
unfolding strbufcopy_loop
strbufcopy_loop-take copied m cs x [] texts room = absurd (omega arith)
strbufcopy_loop-take copied zero [] x (b ∷ buf) texts room =
    ap (λ (n : ℕ). some (n, 0 ∷ buf)) (omega arith)
strbufcopy_loop-take copied (suc m) [] x (b ∷ buf) texts room =
    ap (λ (n : ℕ). some (n, 0 ∷ buf)) (omega arith)
strbufcopy_loop-take copied zero (c ∷ cs) x (b ∷ buf) (some_char, texts) room =
    let full : (not (c == 0) && ltb (copied + 1) (copied + 1 + 0)) ≡ false = ground arith in
    rw full (ap (λ (n : ℕ). some (n, 0 ∷ buf)) (omega arith))
strbufcopy_loop-take copied (suc m) (c ∷ cs) x (b ∷ buf) (some_char, texts) room =
    let more : (not (c == 0) && ltb (copied + 1) (copied + 1 + suc m)) ≡ true = ground arith in
    let size : copied + 1 + suc m ≡ copied + 1 + 1 + m = omega arith in
    let rest = strbufcopy_loop-take (copied + 1) m cs x buf texts (omega arith) in
    rw (more, size, rest)
      (ap (λ (n : ℕ). some (n, c ∷ (take m cs ++ (0 ∷ drop (suc (length (take m cs))) buf))))
        (omega arith))

pub drop-append : (W tail : List ℕ) → drop (length W) (W ++ tail) ≡ tail
drop-append [] tail = refl
drop-append (b ∷ W) tail = drop-append W tail

pub take-append_front : (W tail : List ℕ) → take (length W) (W ++ tail) ≡ W
take-append_front [] tail = refl
take-append_front (b ∷ W) tail = ap (λ (t : List ℕ). b ∷ t) (take-append_front W tail)

pub take-nil : (m : ℕ) → take m [] ≡ []
take-nil zero = refl
take-nil (suc m) = refl

pub length-take : (m : ℕ) (cs : List ℕ) → length (take m cs) ≤ m
length-take zero cs = omega arith
length-take (suc m) [] = omega arith
length-take (suc m) (c ∷ cs) = omega (arith, length-take m cs)

pub length-take_le : (m : ℕ) (cs : List ℕ) → length (take m cs) ≤ length cs
length-take_le zero cs = omega arith
length-take_le (suc m) [] = omega arith
length-take_le (suc m) (c ∷ cs) = omega (arith, length-take_le m cs)

pub take-append :
    (m : ℕ) (cs text : List ℕ)
    → take m (cs ++ text) ≡ take m cs ++ take (m - length (take m cs)) text
take-append zero [] text = refl
take-append (suc m) [] text =
    let e : suc m ≡ suc m - 0 = omega arith in ap (λ (k : ℕ). take k text) e
take-append zero (c ∷ cs) text = refl
take-append (suc m) (c ∷ cs) text =
    let e : suc m - suc (length (take m cs)) ≡ m - length (take m cs) = omega arith in
    ap (λ (t : List ℕ). c ∷ t) (take-append m cs text)
    ∙ ap (λ (k : ℕ). c ∷ (take m cs ++ take k text)) (sym e)

pub length-drop : (n : ℕ) (buf : List ℕ) → n ≤ length buf → n + length (drop n buf) ≡ length buf
length-drop zero buf room = omega arith
length-drop (suc n) [] room = absurd (omega arith)
length-drop (suc n) (b ∷ buf) room = omega (arith, length-drop n buf (omega arith))

-- If not all of a text fits, nothing does behind it.
pub take-full : (m : ℕ) (cs : List ℕ) → length (take m cs) < length cs → length (take m cs) ≡ m
take-full zero cs less = refl
take-full (suc m) [] less = absurd (omega arith)
take-full (suc m) (c ∷ cs) less = ap suc (take-full m cs (omega arith))

-- One text is added behind what was written.
pub try_add_wrapper-take :
    (bufsize m : ℕ) (W tail cs x : List ℕ)
    → bufsize ≡ length W + 1 + m
    → m < length tail
    → IsText cs
    → try_add_wrapper bufsize (cs ++ (0 ∷ x)) (length W, W ++ tail)
      ≡ some (
        length (take m cs) == length cs,
        (
          length W + length (take m cs),
          W ++ (take m cs ++ (0 ∷ drop (suc (length (take m cs))) tail)),
        ),
      )
unfolding try_add_wrapper strbufcopy
try_add_wrapper-take bufsize m W tail cs x e room texts =
    let left : bufsize - length W ≡ 0 + 1 + m = omega arith in
    let some_room : (0 + 1 + m == 0) ≡ false = ground arith in
    let copied : strbufcopy_loop 0 (0 + 1 + m) (cs ++ (0 ∷ x)) tail
        ≡ some (length (take m cs), take m cs ++ (0 ∷ drop (suc (length (take m cs))) tail)) =
      strbufcopy_loop-take 0 m cs x tail texts room
      ∙ ap (λ (n : ℕ). some (n, take m cs ++ (0 ∷ drop (suc (length (take m cs))) tail)))
          (omega arith) in
    rw
      (
        strlen-text cs x texts,
        drop-append W tail,
        take-append_front W tail,
        left,
        some_room,
        copied,
      )
      refl
