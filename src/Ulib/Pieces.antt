-- ===== src/Ulib/Pieces.antt =====
-- What a format means, piece by piece, against the state machine of `printf`: user/printf.c of "triple file
-- system".
use operation_system_project.Prelude.{
  ℕ, ◌+◌, ◌%◌, ◌≡◌, ◌⊎◌, inl, inr, refl, sym, ap, ◌∙◌, Bool, true, false, ◌||◌, List, [], ◌∷◌, ◌++◌,
  All, append_assoc, ◌==◌, if◌then◌else◌, Bool-cases, arith,
}
use operation_system_project.Ulib.Printf.{
  printint, put_string, plain, percent, convert, printf_from, printf,
}

pub data Piece : Type 0 where
  literal : ℕ → Piece
  decimal : Piece
  hex : Piece
  pointer : Piece
  text : Piece
  character : Piece
  percent_sign : Piece
  unknown : ℕ → Piece

abbrev is_conversion : ℕ → Bool
is_conversion c = c == 100 || c == 120 || c == 112 || c == 115 || c == 99 || c == 37

-- A literal is no `%`, and an unknown conversion none of the known ones.
abbrev pub IsProper : Piece → Type 0
IsProper (literal c) = (c == 37) ≡ false
IsProper (unknown c) = is_conversion c ≡ false
IsProper _ = Unit

abbrev pub format_of : Piece → List ℕ
format_of (literal c) = c ∷ []
format_of decimal = 37 ∷ 100 ∷ []
format_of hex = 37 ∷ 120 ∷ []
format_of pointer = 37 ∷ 112 ∷ []
format_of text = 37 ∷ 115 ∷ []
format_of character = 37 ∷ 99 ∷ []
format_of percent_sign = 37 ∷ 37 ∷ []
format_of (unknown c) = 37 ∷ c ∷ []

abbrev pub formats : List Piece → List ℕ
formats [] = []
formats (p ∷ ps) = format_of p ++ formats ps

-- What a piece writes of the next word, and whether it takes it.
abbrev pub piece_output : (string_at : ℕ → List ℕ) → (word : ℕ) → Piece → List ℕ
piece_output string_at word (literal c) = c ∷ []
piece_output string_at word decimal = printint word 10 true
piece_output string_at word hex = printint word 16 false
piece_output string_at word pointer = printint word 16 false
piece_output string_at word text = put_string string_at word
piece_output string_at word character = word % 256 ∷ []
piece_output string_at word percent_sign = 37 ∷ []
piece_output string_at word (unknown c) = 37 ∷ c ∷ []

abbrev pub takes_word : Piece → Bool
takes_word (literal c) = false
takes_word percent_sign = false
takes_word (unknown c) = false
takes_word _ = true

-- The words are taken in order, one by each piece that needs one.
abbrev pub pieces_output :
    (args : ℕ → ℕ) → (string_at : ℕ → List ℕ) → List Piece → (next : ℕ) → List ℕ
pieces_output args string_at [] next = []
pieces_output args string_at (p ∷ ps) next =
    piece_output string_at (args next) p
    ++ pieces_output args string_at ps (if takes_word p then next + 1 else next)

-- The piece of `%` and `c`, by the tests for d, x, p, s, c and %.
abbrev piece_by : (d x p s k q : Bool) → (c : ℕ) → Piece
piece_by d x p s k q c =
    if d
    then decimal
    else (if x
        then hex
        else (if p
            then pointer
            else (if s
                then text
                else (if k then character else (if q then percent_sign else unknown c)))))

abbrev converted : ℕ → Piece
converted c = piece_by (c == 100) (c == 120) (c == 112) (c == 115) (c == 99) (c == 37) c

converted-IsProper : (c : ℕ) → IsProper (converted c)
converted-IsProper c = ground arith

format_of-converted : (c : ℕ) → format_of (converted c) ≡ 37 ∷ c ∷ []
format_of-converted c = ground arith

-- The tests of `printf` in its order, with the byte written for a `%%`.
abbrev convert_by : (string_at : ℕ → List ℕ) → (d x p s k q : Bool) → (c word : ℕ) → List ℕ × Bool
convert_by string_at d x p s k q c word =
    if d
    then (printint word 10 true, true)
    else (if x || p
        then (printint word 16 false, true)
        else (if s
            then (put_string string_at word, true)
            else (if k
                then (word % 256 ∷ [], true)
                else (if q then 37 ∷ [] else 37 ∷ c ∷ [], false))))

convert_by-piece_by :
    (string_at : ℕ → List ℕ) (d x p s k q : Bool) (c word : ℕ)
    → convert_by string_at d x p s k q c word
      ≡ (piece_output string_at word (piece_by d x p s k q c), takes_word (piece_by d x p s k q c))
convert_by-piece_by string_at true x p s k q c word = refl
convert_by-piece_by string_at false true p s k q c word = refl
convert_by-piece_by string_at false false true s k q c word = refl
convert_by-piece_by string_at false false false true k q c word = refl
convert_by-piece_by string_at false false false false true q c word = refl
convert_by-piece_by string_at false false false false false true c word = refl
convert_by-piece_by string_at false false false false false false c word = refl

is_percent : (c : ℕ) → (c == 37) ≡ true → c ≡ 37
is_percent c e = ground arith

convert-converted :
    (string_at : ℕ → List ℕ) (c word : ℕ)
    → convert string_at c word
      ≡ (piece_output string_at word (converted c), takes_word (converted c))
unfolding convert
convert-converted string_at c word =
    convert_by-piece_by string_at (c == 100) (c == 120) (c == 112) (c == 115) (c == 99) (c == 37) c
      word

-- A format is that of the pieces, and maybe of a `%` after which it ends.
abbrev pub IsFormat : List ℕ → List Piece → Type 0
IsFormat fmt ps = (fmt ≡ formats ps) ⊎ (fmt ≡ formats ps ++ (37 ∷ []))

IsFormat-cons :
    {fmt fmt' : List ℕ} (ps : List Piece) (p : Piece)
    → fmt' ≡ format_of p ++ fmt
    → IsFormat fmt ps
    → IsFormat fmt' (p ∷ ps)
IsFormat-cons ps p e (inl h) = inl (e ∙ ap (λ t. format_of p ++ t) h)
IsFormat-cons ps p e (inr h) =
    inr
      (e ∙ (ap (λ t. format_of p ++ t) h ∙ sym (append_assoc (format_of p) (formats ps) (37 ∷ []))))

module _ (args : ℕ → ℕ) (string_at : ℕ → List ℕ) where
  -- The pieces of a format, and what `printf` writes of it from the word `next` on.
  abbrev IsPrinted : List ℕ → ℕ → Type 0
  IsPrinted fmt next =
      (ps : List Piece) × (All IsProper ps
        × (IsFormat fmt ps
            × (printf_from args string_at plain fmt next ≡ pieces_output args string_at ps next)))

  printf_from-literal :
      (c : ℕ) (fmt : List ℕ) (ap : ℕ)
      → (c == 37) ≡ false
      → printf_from args string_at plain (c ∷ fmt) ap ≡ c ∷ printf_from args string_at plain fmt ap
  unfolding printf_from
  printf_from-literal c fmt ap' h =
      ap
        (λ t.
          if t
          then printf_from args string_at percent fmt ap'
          else c ∷ printf_from args string_at plain fmt ap')
        h

  printf_from-converted :
      (c d : ℕ) (fmt : List ℕ) (next : ℕ)
      → (c == 37) ≡ true
      → printf_from args string_at plain (c ∷ d ∷ fmt) next
        ≡ piece_output string_at (args next) (converted d)
          ++ printf_from args string_at plain fmt
              (if takes_word (converted d) then next + 1 else next)
  unfolding printf_from
  printf_from-converted c d fmt next h =
      ap
        (λ t.
          if t
          then printf_from args string_at percent (d ∷ fmt) next
          else c ∷ printf_from args string_at plain (d ∷ fmt) next)
        h
      ∙ ap (λ r. r.0 ++ printf_from args string_at plain fmt (if r.1 then next + 1 else next))
          (convert-converted string_at d (args next))

  printf_from-IsPrinted : (fmt : List ℕ) (next : ℕ) → IsPrinted fmt next
  unfolding printf_from
  printf_from-IsPrinted [] next = ([], (tt, (inl refl, refl)))
  printf_from-IsPrinted (c ∷ []) next = elim (Bool-cases (c == 37)) [
    | inl e ↦
        ([], (tt, (inr (ap (λ c. c ∷ []) (is_percent c e)), ap (λ t. if t then [] else c ∷ []) e)))
    | inr e ↦ (literal c ∷ [], ((e, tt), (inl refl, printf_from-literal c [] next e)))
  ]
  printf_from-IsPrinted (c ∷ d ∷ fmt) next =
      let (ps, (ok_ps, (f, w))) = printf_from-IsPrinted (d ∷ fmt) next in
      let (qs, (ok_qs, (g, v))) =
        printf_from-IsPrinted fmt (if takes_word (converted d) then next + 1 else next) in
      elim (Bool-cases (c == 37)) [
        | inl e ↦ (
          converted d ∷ qs,
          (
            (converted-IsProper d, ok_qs),
            (
              IsFormat-cons qs (converted d)
                  (ap (λ c. c ∷ d ∷ fmt) (is_percent c e)
                    ∙ ap (λ t. t ++ fmt) (sym (format_of-converted d)))
                  g,
              printf_from-converted c d fmt next e
                  ∙ ap (λ t. piece_output string_at (args next) (converted d) ++ t) v,
            ),
          ),
        )
        | inr e ↦ (
          literal c ∷ ps,
          (
            (e, ok_ps),
            (
              IsFormat-cons ps (literal c) refl f,
              printf_from-literal c (d ∷ fmt) next e ∙ ap (λ t. c ∷ t) w,
            ),
          ),
        )
      ]

  -- Every format is that of some pieces, literals, known conversions and unknown ones, or ends in a
  -- single `%` behind them, which is dropped; and `printf` writes what the pieces write, each
  -- with the next word if it takes one.
  pub printf-IsFormat :
      (fmt : List ℕ)
      → (ps : List Piece) × (All IsProper ps
          × (IsFormat fmt ps × (printf args string_at fmt ≡ pieces_output args string_at ps 0)))
  unfolding printf
  printf-IsFormat fmt = printf_from-IsPrinted fmt 0
