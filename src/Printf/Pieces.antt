-- ===== src/Printf/Pieces.antt =====
-- Format strings as lists of pieces: what the loop of `vprintf_to_device` makes of them.
use waddle_os.Base.{
  ℕ, ◌+◌, ◌≤◌, ◌<◌, ◌≡◌, refl, ◌≢◌, false, List, [], ◌∷◌, ◌++◌, length, arith, ok, ne→==, lt→ltb,
}
use waddle_os.Printf.{
  Arg, str, int, uint64, max_printf_len, print_int, print_hex, convert, convert_string, convert_int,
  convert_hex, format,
}

-- A byte that is not `%`, a conversion with its argument, or a `%` before any other byte.
pub data Piece : Type 0 where
  byte : ℕ → Piece
  string : List ℕ → Piece
  decimal : ℕ → Piece
  hexadecimal : ℕ → Piece
  unknown : ℕ → Piece

-- The format string of a list of pieces, its arguments, and the text that it stands for.
abbrev pub pattern_of : Piece → List ℕ
pattern_of (byte c) = c ∷ []
pattern_of (string s) = b'%' ∷ b's' ∷ []
pattern_of (decimal a) = b'%' ∷ b'd' ∷ []
pattern_of (hexadecimal v) = b'%' ∷ b'x' ∷ []
pattern_of (unknown c) = b'%' ∷ c ∷ []

abbrev pub args_of : Piece → List Arg
args_of (byte c) = []
args_of (string s) = str s ∷ []
args_of (decimal a) = int a ∷ []
args_of (hexadecimal v) = uint64 v ∷ []
args_of (unknown c) = []

abbrev pub text_of : Piece → List ℕ
text_of (byte c) = c ∷ []
text_of (string s) = s
text_of (decimal a) = print_int a
text_of (hexadecimal v) = print_hex v
text_of (unknown c) = b'X' ∷ []

abbrev pub IsPiece : Piece → Type 0
IsPiece (byte c) = c ≢ 0x25
IsPiece (string s) = Unit {0}
IsPiece (decimal a) = Unit {0}
IsPiece (hexadecimal v) = Unit {0}
IsPiece (unknown c) = (c ≢ 0x73) × (c ≢ 0x64) × (c ≢ 0x78)

abbrev pub pattern : List Piece → List ℕ
pattern [] = []
pattern (p ∷ ps) = pattern_of p ++ pattern ps

abbrev pub args : List Piece → List Arg
args [] = []
args (p ∷ ps) = args_of p ++ args ps

abbrev pub text : List Piece → List ℕ
text [] = []
text (p ∷ ps) = text_of p ++ text ps

abbrev pub ArePieces : List Piece → Type 0
ArePieces [] = Unit {0}
ArePieces (p ∷ ps) = IsPiece p × ArePieces ps

-- One conversion at index `i`.
format-convert :
    (i d : ℕ) (cs out rest : List ℕ) (given bs : List Arg)
    → i < max_printf_len
    → convert d given ≡ ok (out, bs)
    → format false (i + 1 + 1) cs bs ≡ ok rest
    → format false i (0x25 ∷ d ∷ cs) given ≡ ok (out ++ rest)
unfolding format
format-convert i d cs out rest given bs h e e' = rw (lt→ltb i max_printf_len h, e, e') refl

convert-unknown :
    (c : ℕ) (given : List Arg) → IsPiece (unknown c) → convert c given ≡ ok (0x58 ∷ [], given)
unfolding convert
convert-unknown c given other =
    rw (ne→== c 0x73 other.0, ne→== c 0x64 other.1, ne→== c 0x78 other.2) refl

-- The loop, from a piece on.
pub format-text :
    (ps : List Piece) (i : ℕ)
    → ArePieces ps
    → i + length (pattern ps) ≤ max_printf_len
    → format false i (pattern ps) (args ps) ≡ ok (text ps)
unfolding format convert convert_string convert_int convert_hex
format-text [] i good h = refl
format-text (byte c ∷ ps) i good h =
    rw
      (
        ne→== c 0x25 good.0,
        lt→ltb i max_printf_len (omega arith),
        format-text ps (i + 1) good.1 (omega arith),
      )
      refl
format-text (string s ∷ ps) i good h =
    format-convert i 0x73 (pattern ps) s (text ps) (str s ∷ args ps) (args ps) (omega arith) refl
      (format-text ps (i + 1 + 1) good.1 (omega arith))
format-text (decimal a ∷ ps) i good h =
    format-convert i 0x64 (pattern ps) (print_int a) (text ps) (int a ∷ args ps) (args ps)
      (omega arith) refl (format-text ps (i + 1 + 1) good.1 (omega arith))
format-text (hexadecimal v ∷ ps) i good h =
    format-convert i 0x78 (pattern ps) (print_hex v) (text ps) (uint64 v ∷ args ps) (args ps)
      (omega arith) refl (format-text ps (i + 1 + 1) good.1 (omega arith))
format-text (unknown c ∷ ps) i good h =
    format-convert i c (pattern ps) (0x58 ∷ []) (text ps) (args ps) (args ps) (omega arith)
      (convert-unknown c (args ps) good.0) (format-text ps (i + 1 + 1) good.1 (omega arith))
