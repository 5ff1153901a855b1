-- ===== src/Sfs/Words.antt =====
-- Blocks as words: what the source does when it reads a block into an array of u_int32_t or into a
-- structure of them.
use harvard_os.Prelude.{
  ℕ, zero, suc, ◌+◌, ◌*◌, ◌/◌, ◌%◌, ◌^◌, ◌<◌, ◌≡◌, refl, ap, List, [], ◌∷◌, arith, length, get_or,
  replicate,
}

unfoldable pub words_bytes : List ℕ → List ℕ
words_bytes [] = []
words_bytes (w ∷ ws) =
    (w / 2 ^ 24 % 256) ∷ (w / 2 ^ 16 % 256) ∷ (w / 2 ^ 8 % 256) ∷ (w % 256) ∷ words_bytes ws

unfoldable pub bytes_words : List ℕ → List ℕ
bytes_words (a ∷ b ∷ c ∷ d ∷ bytes) = (a * 2 ^ 24 + b * 2 ^ 16 + c * 2 ^ 8 + d) ∷ bytes_words bytes
bytes_words [] = []
bytes_words (a ∷ []) = []
bytes_words (a ∷ b ∷ []) = []
bytes_words (a ∷ b ∷ c ∷ []) = []

-- Every number is a word.
abbrev pub AllWords : List ℕ → Type 0
AllWords [] = Unit
AllWords (w ∷ ws) = (w < 2 ^ 32) × AllWords ws

word_lem :
    (w : ℕ)
    → w < 2 ^ 32
    → w / 2 ^ 24 % 256 * 2 ^ 24 + w / 2 ^ 16 % 256 * 2 ^ 16 + w / 2 ^ 8 % 256 * 2 ^ 8 + w % 256 ≡ w
word_lem w h = omega (arith, h)

-- Words that are stored and loaded are the same words.
pub bytes_words-words_bytes : (ws : List ℕ) → AllWords ws → bytes_words (words_bytes ws) ≡ ws
unfolding bytes_words words_bytes
bytes_words-words_bytes [] h = refl
bytes_words-words_bytes (w ∷ ws) (here, all) =
    rw (word_lem w here) (ap (◌∷◌ w) (bytes_words-words_bytes ws all))

pub length-words_bytes : (ws : List ℕ) → length (words_bytes ws) ≡ 4 * length ws
unfolding words_bytes
length-words_bytes [] = refl
length-words_bytes (w ∷ ws) = omega (arith, length-words_bytes ws)

-- The words of a block of bytes.
pub length-bytes_words :
    (n : ℕ) (bytes : List ℕ) → length bytes ≡ 4 * n → length (bytes_words bytes) ≡ n
unfolding bytes_words
length-bytes_words zero [] e = refl
length-bytes_words zero (a ∷ bytes) e = absurd (omega arith)
length-bytes_words (suc n) [] e = absurd (omega arith)
length-bytes_words (suc n) (a ∷ []) e = absurd (omega arith)
length-bytes_words (suc n) (a ∷ b ∷ []) e = absurd (omega arith)
length-bytes_words (suc n) (a ∷ b ∷ c ∷ []) e = absurd (omega arith)
length-bytes_words (suc n) (a ∷ b ∷ c ∷ d ∷ bytes) e =
    ap suc (length-bytes_words n bytes (omega arith))

pub zero_words : bytes_words (replicate 512 0) ≡ replicate 128 0
unfolding bytes_words
zero_words = refl

pub get_or-replicate : (n k : ℕ) → get_or {A = ℕ} (replicate n 0) k 0 ≡ 0
get_or-replicate zero k = refl
get_or-replicate (suc n) zero = refl
get_or-replicate (suc n) (suc k) = get_or-replicate n k
