-- ===== src/Print/Rounds.antt =====
-- The text of a format, and the rounds of the loop of `vfnprintf`.
use pinyon.Prelude.{
  ℕ, suc, ◌+◌, ◌≤◌, ◌<◌, ◌≡◌, ◌≢◌, refl, arith, Bool, true, false, leb, ◌==◌, Option, none, some,
  List, [], ◌∷◌, ◌++◌, length,
}
use pinyon.Strings.Compare.{IsText}
use pinyon.Print.{Arg, char_at, convert, is_alternative, mod_position, type_position, format_loop}

-- The text that a format asks for, from a position on with some arguments: it ends with the format or at
-- an unknown specifier, and an added text is terminated.
pub data Formats (view : List ℕ) : (position : ℕ) → List Arg → List ℕ → Type 0 where
  ends : {position : ℕ} {args : List Arg} → length view ≤ position → Formats view position args []
  bails :
      {position : ℕ} {args : List Arg}
      → position < length view
      → char_at view position ≡ 37
      → convert (is_alternative view position) (char_at view (type_position view position)) args
        ≡ some none
      → Formats view position args []
  literal :
      {position : ℕ} {args : List Arg} {text : List ℕ}
      → position < length view
      → char_at view position ≢ 37
      → 0 < char_at view position
      → Formats view (position + 1) args text
      → Formats view position args (char_at view position ∷ text)
  adds :
      {position : ℕ} {args args' : List Arg} {text : List ℕ} (cs x : List ℕ)
      → position < length view
      → char_at view position ≡ 37
      → convert (is_alternative view position) (char_at view (type_position view position)) args
        ≡ some (some (cs ++ (0 ∷ x), args'))
      → IsText cs
      → Formats view (type_position view position + 1) args' text
      → Formats view position args (cs ++ text)

pub type_position-after : (view : List ℕ) (position : ℕ) → position < type_position view position
unfolding type_position mod_position
type_position-after view position = ground arith

module _ {T : Type 0} (add : List ℕ → T → Option (Bool × T)) (fuel : ℕ) (view : List ℕ)
    (position : ℕ) (args : List Arg) (t : T) where
  pub format_loop-end :
      length view ≤ position → format_loop add (suc fuel) view position args t ≡ some (true, t)
  unfolding format_loop
  format_loop-end past = let e : leb (length view) position ≡ true = ground arith in rw e refl

  pub format_loop-literal :
      (t' : T) (added : Bool)
      → position < length view
      → char_at view position ≢ 37
      → add (char_at view position ∷ 0 ∷ []) t ≡ some (added, t')
      → format_loop add (suc fuel) view position args t
        ≡ format_loop add fuel view (position + 1) args t'
  unfolding format_loop
  format_loop-literal t' added before other run =
      let e : leb (length view) position ≡ false = ground arith in
      let d : (char_at view position == 37) ≡ false = ground (arith, other) in rw (e, d, run) refl

  abbrev pub converted : Option (Option (List ℕ × List Arg))
  converted =
      convert (is_alternative view position) (char_at view (type_position view position)) args

  pub format_loop-bails :
      position < length view
      → char_at view position ≡ 37
      → converted ≡ some none
      → format_loop add (suc fuel) view position args t ≡ some (false, t)
  unfolding format_loop
  format_loop-bails before percent c =
      let e : leb (length view) position ≡ false = ground arith in
      let d : (char_at view position == 37) ≡ true = ground (arith, percent) in rw (e, d, c) refl

  pub format_loop-full :
      (text : List ℕ) (args' : List Arg) (t' : T)
      → position < length view
      → char_at view position ≡ 37
      → converted ≡ some (some (text, args'))
      → add text t ≡ some (false, t')
      → format_loop add (suc fuel) view position args t ≡ some (false, t')
  unfolding format_loop
  format_loop-full text args' t' before percent c run =
      let e : leb (length view) position ≡ false = ground arith in
      let d : (char_at view position == 37) ≡ true = ground (arith, percent) in
      rw (e, d, c, run) refl

  pub format_loop-adds :
      (text : List ℕ) (args' : List Arg) (t' : T)
      → position < length view
      → char_at view position ≡ 37
      → converted ≡ some (some (text, args'))
      → add text t ≡ some (true, t')
      → format_loop add (suc fuel) view position args t
        ≡ format_loop add fuel view (type_position view position + 1) args' t'
  unfolding format_loop
  format_loop-adds text args' t' before percent c run =
      let e : leb (length view) position ≡ false = ground arith in
      let d : (char_at view position == 37) ≡ true = ground (arith, percent) in
      rw (e, d, c, run) refl
