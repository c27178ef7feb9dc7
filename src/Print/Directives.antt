-- ===== src/Print/Directives.antt =====
-- What a format prints of its arguments, read off the chars of the format.
use pinyon.Prelude.{
  ℕ, zero, suc, ◌+◌, ◌-◌, ◌%◌, ◌^◌, ◌≤◌, ◌<◌, ◌≡◌, ◌≢◌, refl, sym, ap, subst, ◌∙◌, arith, Bool,
  true, false, ◌==◌, none, some, List, [], ◌∷◌, ◌++◌, length, replicate, All,
}
use pinyon.Strings.Compare.{IsText}
use pinyon.Numbers.Digits.{IsDigit}
use pinyon.Numbers.Texts.{
  text_of, text_of-IsNumeral, to_strbuf-Holds, to_strbuf_signed-pos, to_strbuf_signed-negsuc,
}
use pinyon.Files.{pos, negsuc}
use pinyon.Print.{
  Arg, word, chars, drop, char_at, int_of, convert, convert_word, takes_word, is_alternative,
  mod_position, type_position,
}
use pinyon.Print.Rounds.{Formats, ends, bails, literal, adds}

pub data Size : Type 0 where
  plain : Size
  long : Size
  sized : Size

abbrev size_mark : Size → List ℕ → List ℕ
size_mark plain rest = rest
size_mark long rest = 108 ∷ rest
size_mark sized rest = 122 ∷ rest

-- What stands between `%` and the type char: `#` or nothing, then `l`, `z` or nothing.
abbrev pub marks : (alternative : Bool) → Size → List ℕ → List ℕ
marks false size rest = size_mark size rest
marks true size rest = 35 ∷ size_mark size rest

-- A char that is no mark.
abbrev IsType : ℕ → Type 0
IsType d = ((d == 35) ≡ false) × ((d == 108) ≡ false) × ((d == 122) ≡ false)

-- Neither a mark nor one of `%`, `s`, `c`, `u`, `d`, `x` and `p`.
abbrev pub IsUnknown : ℕ → Type 0
IsUnknown d =
    IsType d
    × ((d == 37) ≡ false)
    × ((d == 115) ≡ false)
    × ((d == 99) ≡ false)
    × ((d == 117) ≡ false)
    × ((d == 100) ≡ false)
    × ((d == 120) ≡ false)
    × ((d == 112) ≡ false)

-- The text that a format asks for of some arguments, without `%x` and `%p`. An unknown type char ends
-- it.
pub data Prints : (fmt : List ℕ) → List Arg → (text : List ℕ) → Type 0 where
  done : {args : List Arg} → Prints [] args []
  plain_char :
      {fmt : List ℕ} {args : List Arg} {text : List ℕ} (c : ℕ)
      → c ≢ 37
      → 0 < c
      → Prints fmt args text
      → Prints (c ∷ fmt) args (c ∷ text)
  percent :
      {args : List Arg} {text : List ℕ} (alternative : Bool) (size : Size) (fmt : List ℕ)
      → Prints fmt args text
      → Prints (37 ∷ marks alternative size (37 ∷ fmt)) args (37 ∷ text)
  string :
      {args : List Arg} {text : List ℕ} (alternative : Bool) (size : Size) (fmt : List ℕ)
      (cs x : List ℕ)
      → IsText cs
      → Prints fmt args text
      → Prints (37 ∷ marks alternative size (115 ∷ fmt)) (chars (cs ++ (0 ∷ x)) ∷ args) (cs ++ text)
  character :
      {args : List Arg} {text : List ℕ} (alternative : Bool) (size : Size) (fmt : List ℕ) (n : ℕ)
      → 0 < n % 256
      → Prints fmt args text
      → Prints (37 ∷ marks alternative size (99 ∷ fmt)) (word n ∷ args) (n % 256 ∷ text)
  unsigned :
      {args : List Arg} {text : List ℕ} (alternative : Bool) (size : Size) (fmt : List ℕ) (n : ℕ)
      → n < 2 ^ 32
      → Prints fmt args text
      → Prints (37 ∷ marks alternative size (117 ∷ fmt)) (word n ∷ args) (text_of n ++ text)
  positive :
      {args : List Arg} {text : List ℕ} (alternative : Bool) (size : Size) (fmt : List ℕ) (n : ℕ)
      → n < 2 ^ 31
      → Prints fmt args text
      → Prints (37 ∷ marks alternative size (100 ∷ fmt)) (word n ∷ args) (text_of n ++ text)
  negative :
      {args : List Arg} {text : List ℕ} (alternative : Bool) (size : Size) (fmt : List ℕ) (n : ℕ)
      → n + 1 < 2 ^ 31
      → Prints fmt args text
      → Prints
          (37 ∷ marks alternative size (100 ∷ fmt))
          (word (2 ^ 32 - 1 - n) ∷ args)
          ((45 ∷ text_of (suc n)) ++ text)
  unknown :
      {args : List Arg} (alternative : Bool) (size : Size) (fmt : List ℕ) (d : ℕ)
      → IsUnknown d
      → Prints (37 ∷ marks alternative size (d ∷ fmt)) args []

char_at-drop : (view : List ℕ) (p k : ℕ) → char_at view (p + k) ≡ char_at (drop p view) k
unfolding char_at
char_at-drop view zero k = ap (char_at view) (omega arith)
char_at-drop [] (suc p) k = refl
char_at-drop (c ∷ view) (suc p) k =
    let e : suc p + k ≡ suc (p + k) = omega arith in
    ap (char_at (c ∷ view)) e ∙ char_at-drop view p k

drop-nil : (k : ℕ) → drop k [] ≡ []
drop-nil zero = refl
drop-nil (suc k) = refl

drop-drop : (view : List ℕ) (p k : ℕ) → drop (p + k) view ≡ drop k (drop p view)
drop-drop view zero k = ap (λ (n : ℕ). drop n view) (omega arith)
drop-drop [] (suc p) k = drop-nil (suc p + k) ∙ sym (drop-nil k)
drop-drop (c ∷ view) (suc p) k =
    let e : suc p + k ≡ suc (p + k) = omega arith in
    ap (λ (n : ℕ). drop n (c ∷ view)) e ∙ drop-drop view p k

drop-end : (view : List ℕ) (p : ℕ) → drop p view ≡ [] → length view ≤ p
drop-end [] p e = omega arith
drop-end (c ∷ view) zero e = absurd cc
drop-end (c ∷ view) (suc p) e = omega (arith, drop-end view p e)

drop-before : (view : List ℕ) (p c : ℕ) (rest : List ℕ) → drop p view ≡ c ∷ rest → p < length view
drop-before [] p c rest e = let f = drop-nil p in absurd cc
drop-before (c ∷ view) zero d rest e = omega arith
drop-before (c ∷ view) (suc p) d rest e = omega (arith, drop-before view p d rest e)

-- The parts of a directive at a position of the format.
record Directive (view : List ℕ) (p : ℕ) (alternative : Bool) (d : ℕ) (fmt : List ℕ) : Type 0 where
  before : p < length view
  percents : char_at view p ≡ 37
  flagged : is_alternative view p ≡ alternative
  types : char_at view (type_position view p) ≡ d
  rest : drop (type_position view p + 1) view ≡ fmt

module _ (view : List ℕ) (p d : ℕ) (fmt : List ℕ) (is_type : IsType d) where
  Directive-at :
      (alternative : Bool) (k : ℕ) (l : List ℕ)
      → drop p view ≡ 37 ∷ l
      → is_alternative view p ≡ alternative
      → type_position view p ≡ p + k
      → char_at (37 ∷ l) k ≡ d
      → drop (k + 1) (37 ∷ l) ≡ fmt
      → Directive view p alternative d fmt
  unfolding char_at
  Directive-at alternative k l e flagged tp types rest = record {
    before = drop-before view p 37 l e;
    percents =
        let z : p ≡ p + 0 = omega arith in
        ap (char_at view) z ∙ char_at-drop view p 0 ∙ ap (λ m. char_at m 0) e;
    flagged = flagged;
    types = ap (char_at view) tp ∙ char_at-drop view p k ∙ ap (λ m. char_at m k) e ∙ types;
    rest =
        let z : p + k + 1 ≡ p + (k + 1) = omega arith in
        ap (λ (q : ℕ). drop (q + 1) view) tp
        ∙ ap (λ (q : ℕ). drop q view) z
        ∙ drop-drop view p (k + 1)
        ∙ ap (drop (k + 1)) e
        ∙ rest;
  }

  char_from : (l : List ℕ) → drop p view ≡ l → (k : ℕ) → char_at view (p + k) ≡ char_at l k
  char_from l e k = char_at-drop view p k ∙ ap (λ m. char_at m k) e

  directive :
      (alternative : Bool) (size : Size)
      → drop p view ≡ 37 ∷ marks alternative size (d ∷ fmt)
      → Directive view p alternative d fmt
  unfolding char_at is_alternative mod_position type_position
  directive false plain e =
      let c1 : char_at view (p + 1) ≡ d = char_from _ e 1 in
      let (h, l, z) = is_type in
      Directive-at false 1 _ e (ground (arith, c1, h)) (ground (arith, c1, h, l, z)) refl refl
  directive false long e =
      let c1 : char_at view (p + 1) ≡ 108 = char_from _ e 1 in
      let c2 : char_at view (p + 2) ≡ d = char_from _ e 2 in
      Directive-at false 2 _ e (ground (arith, c1)) (ground (arith, c1, c2)) refl refl
  directive false sized e =
      let c1 : char_at view (p + 1) ≡ 122 = char_from _ e 1 in
      let c2 : char_at view (p + 2) ≡ d = char_from _ e 2 in
      Directive-at false 2 _ e (ground (arith, c1)) (ground (arith, c1, c2)) refl refl
  directive true plain e =
      let c1 : char_at view (p + 1) ≡ 35 = char_from _ e 1 in
      let c2 : char_at view (p + 2) ≡ d = char_from _ e 2 in
      let (h, l, z) = is_type in
      Directive-at true 2 _ e (ground (arith, c1)) (ground (arith, c1, c2, l, z)) refl refl
  directive true long e =
      let c1 : char_at view (p + 1) ≡ 35 = char_from _ e 1 in
      let c2 : char_at view (p + 2) ≡ 108 = char_from _ e 2 in
      Directive-at true 3 _ e (ground (arith, c1)) (ground (arith, c1, c2)) refl refl
  directive true sized e =
      let c1 : char_at view (p + 1) ≡ 35 = char_from _ e 1 in
      let c2 : char_at view (p + 2) ≡ 122 = char_from _ e 2 in
      Directive-at true 3 _ e (ground (arith, c1)) (ground (arith, c1, c2)) refl refl

digits-IsText : (cs : List ℕ) → All IsDigit cs → IsText cs
digits-IsText [] digits = tt
digits-IsText (c ∷ cs) ((low, high), digits) = (omega (arith, low), digits-IsText cs digits)

text_of-IsText : (n : ℕ) → IsText (text_of n)
text_of-IsText n = digits-IsText (text_of n) (text_of-IsNumeral n).digits

-- What the switch adds for each type char.
convert-percent :
    (alternative : Bool) (args : List Arg)
    → convert alternative 37 args ≡ some (some ((37 ∷ []) ++ (0 ∷ []), args))
unfolding convert
convert-percent alternative [] = refl
convert-percent alternative (word n ∷ args) = refl
convert-percent alternative (chars text ∷ args) = refl

convert-string :
    (alternative : Bool) (text : List ℕ) (args : List Arg)
    → convert alternative 115 (chars text ∷ args) ≡ some (some (text, args))
unfolding convert
convert-string alternative text args = refl

convert-character :
    (alternative : Bool) (n : ℕ) (args : List Arg)
    → convert alternative 99 (word n ∷ args) ≡ some (some ((n % 256 ∷ []) ++ (0 ∷ []), args))
unfolding convert convert_word takes_word
convert-character alternative n args = refl

convert-unknown :
    (alternative : Bool) (d : ℕ) (args : List Arg)
    → IsUnknown d
    → convert alternative d args ≡ some none
unfolding convert convert_word takes_word
convert-unknown alternative d [] (t, a, b, c, e, f, g, h) = rw (a, b, c, e, f, g, h) refl
convert-unknown alternative d (word n ∷ args) (t, a, b, c, e, f, g, h) =
    rw (a, b, c, e, f, g, h) refl
convert-unknown alternative d (chars text ∷ args) (t, a, b, c, e, f, g, h) =
    rw (a, b, c, e, f, g, h) refl

convert-unsigned :
    (alternative : Bool) (n : ℕ) (args : List Arg)
    → n < 2 ^ 32
    → (x : List ℕ) × (convert alternative 117 (word n ∷ args)
        ≡ some (some (text_of n ++ (0 ∷ x), args)))
unfolding convert convert_word takes_word
convert-unsigned alternative n args small =
    let (x, e, _) = to_strbuf-Holds (replicate 11 0) 11 n (omega arith) (omega arith) small in
    (x, ap (λ (t : List ℕ). some (some (t, args))) e)

convert-positive :
    (alternative : Bool) (n : ℕ) (args : List Arg)
    → n < 2 ^ 31
    → (x : List ℕ) × (convert alternative 100 (word n ∷ args)
        ≡ some (some (text_of n ++ (0 ∷ x), args)))
unfolding convert convert_word takes_word int_of
convert-positive alternative n args small =
    let (x, e) = to_strbuf_signed-pos (replicate 12 0) 12 n (omega arith) (omega arith) small in
    let i : int_of n ≡ pos n = ground arith in (x, rw (i, e) refl)

convert-negative :
    (alternative : Bool) (n : ℕ) (args : List Arg)
    → n + 1 < 2 ^ 31
    → (x : List ℕ) × (convert alternative 100 (word (2 ^ 32 - 1 - n) ∷ args)
        ≡ some (some ((45 ∷ text_of (suc n)) ++ (0 ∷ x), args)))
unfolding convert convert_word takes_word int_of
convert-negative alternative n args small =
    let (x, e) = to_strbuf_signed-negsuc (replicate 12 0) 12 n (omega arith) (omega arith) small in
    let i : int_of (2 ^ 32 - 1 - n) ≡ negsuc n = ground arith in (x, rw (i, e) refl)

-- The text of a directive that converts.
converts :
    (view : List ℕ) (p : ℕ) (alternative : Bool) (d : ℕ) (fmt : List ℕ) (args args' : List Arg)
    (text cs x : List ℕ)
    → Directive view p alternative d fmt
    → convert alternative d args ≡ some (some (cs ++ (0 ∷ x), args'))
    → IsText cs
    → Formats view (type_position view p + 1) args' text
    → Formats view p args (cs ++ text)
converts view p alternative d fmt args args' text cs x dir c texts f =
    adds cs x dir.before dir.percents (rw (dir.flagged, dir.types) c) texts f

char_at-front :
    (view : List ℕ) (p c : ℕ) (rest : List ℕ) → drop p view ≡ c ∷ rest → char_at view p ≡ c
unfolding char_at
char_at-front view p c rest e =
    let z : p ≡ p + 0 = omega arith in
    ap (char_at view) z ∙ char_at-drop view p 0 ∙ ap (λ m. char_at m 0) e

-- A text that the chars of the format ask for is one that its positions ask for.
pub Prints-Formats :
    {fmt : List ℕ} {args : List Arg} {text : List ℕ} (view : List ℕ) (p : ℕ)
    → Prints fmt args text
    → drop p view ≡ fmt
    → Formats view p args text
Prints-Formats view p done e = ends (drop-end view p e)
Prints-Formats view p (plain_char {fmt} {args} {text} c other some_char f) e =
    let at = char_at-front view p c fmt e in
    subst (λ (ch : ℕ). Formats view p args (ch ∷ text)) at
      (literal (drop-before view p c fmt e) (λ h. other (sym at ∙ h)) (omega (arith, at, some_char))
        (Prints-Formats view (p + 1) f (drop-drop view p 1 ∙ ap (drop 1) e)))
Prints-Formats view p (percent {args} {text} alternative size fmt f) e =
    let dir = directive view p 37 fmt (refl, refl, refl) alternative size e in
    converts view p alternative 37 fmt args args text (37 ∷ []) [] dir
      (convert-percent alternative args) (omega arith, tt) (Prints-Formats view _ f dir.rest)
Prints-Formats view p (string {args} {text} alternative size fmt cs x texts f) e =
    let dir = directive view p 115 fmt (refl, refl, refl) alternative size e in
    converts view p alternative 115 fmt (chars (cs ++ (0 ∷ x)) ∷ args) args text cs x dir
      (convert-string alternative (cs ++ (0 ∷ x)) args) texts (Prints-Formats view _ f dir.rest)
Prints-Formats view p (character {args} {text} alternative size fmt n some_char f) e =
    let dir = directive view p 99 fmt (refl, refl, refl) alternative size e in
    converts view p alternative 99 fmt (word n ∷ args) args text (n % 256 ∷ []) [] dir
      (convert-character alternative n args) (some_char, tt) (Prints-Formats view _ f dir.rest)
Prints-Formats view p (unsigned {args} {text} alternative size fmt n small f) e =
    let dir = directive view p 117 fmt (refl, refl, refl) alternative size e in
    let (x, c) = convert-unsigned alternative n args small in
    converts view p alternative 117 fmt (word n ∷ args) args text (text_of n) x dir c
      (text_of-IsText n) (Prints-Formats view _ f dir.rest)
Prints-Formats view p (positive {args} {text} alternative size fmt n small f) e =
    let dir = directive view p 100 fmt (refl, refl, refl) alternative size e in
    let (x, c) = convert-positive alternative n args small in
    converts view p alternative 100 fmt (word n ∷ args) args text (text_of n) x dir c
      (text_of-IsText n) (Prints-Formats view _ f dir.rest)
Prints-Formats view p (negative {args} {text} alternative size fmt n small f) e =
    let dir = directive view p 100 fmt (refl, refl, refl) alternative size e in
    let (x, c) = convert-negative alternative n args small in
    converts view p alternative 100 fmt (word (2 ^ 32 - 1 - n) ∷ args) args text
      (45 ∷ text_of (suc n)) x dir c (omega arith, text_of-IsText (suc n))
      (Prints-Formats view _ f dir.rest)
Prints-Formats view p (unknown {args} alternative size fmt d other) e =
    let dir = directive view p d fmt other.0 alternative size e in
    bails dir.before dir.percents
      (rw (dir.flagged, dir.types) (convert-unknown alternative d args other))
