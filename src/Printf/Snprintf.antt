-- ===== src/Printf/Snprintf.antt =====
-- os161/lib/libc/snprintf.c: printf into a buffer of `len` bytes, in a memory of bytes.
pub mod Buffer
use harvard_os.Prelude.{
  ℕ, ◌+◌, ◌-◌, Option, some, List, [], ◌∷◌, ltb, ◌==◌, if◌then◌else◌, update_at, ◌>>=◌,
}
use harvard_os.Printf.{Arg, vprintf}

pub record Snp : Type 0 where
  pub memory : ℕ → ℕ
  pub buf : ℕ
  pub buflen : ℕ
  pub bufpos : ℕ

pub store_char : Snp → ℕ → Snp
store_char snp c =
    if ltb snp.bufpos snp.buflen
    then record snp {
      memory = update_at snp.memory (snp.buf + snp.bufpos) c;
      bufpos = snp.bufpos + 1;
    }
    else snp

pub snprintf_send : Snp → List ℕ → Snp
snprintf_send snp [] = snp
snprintf_send snp (c ∷ str) = snprintf_send (store_char snp c) str

-- The count, and the memory after.
pub vsnprintf : (ℕ → ℕ) → ℕ → ℕ → List ℕ → List Arg → Option (ℕ × (ℕ → ℕ))
vsnprintf memory buf len fmt ap =
    let snp : Snp = record {
      memory = memory;
      buf = buf;
      buflen = if len == 0 then 0 else len - 1;
      bufpos = 0;
    } in
    vprintf snprintf_send snp fmt ap >>= λ (chars, snp1).
    some (chars, (if ltb 0 len then update_at snp1.memory (buf + snp1.bufpos) 0 else snp1.memory))
