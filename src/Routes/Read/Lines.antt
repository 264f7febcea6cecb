-- ===== src/Routes/Read/Lines.antt =====
-- The rover's lines do not depend on how its body is cut into chunks, and the buffer is bounded.
use corshub.Prelude.{
  ℕ, ◌≤◌, ◌≡◌, refl, sym, ap, ◌∙◌, false, List, [], ◌∷◌, ◌++◌, ◌==◌, length, Bool-cases, inl, inr,
  arith,
}
use mathlib.Core.List.{append_assoc, append-nil}
use corshub.Framing.{Bytes}
use corshub.Routes.Read.{max_gga_buffer, push_byte, split_lines, read_chunk, read_chunks}

-- What is split of `cs`, after what was split before it.
abbrev onto : Bytes → List Bytes × Bytes → List Bytes × Bytes
onto cs (lines, rest) = (lines ++ (split_lines (rest ++ cs)).0, (split_lines (rest ++ cs)).1)

push_byte_first :
    (b : ℕ) (rest : Bytes) → (b == 10) ≡ false → push_byte b ([], rest) ≡ ([], b ∷ rest)
unfolding push_byte
push_byte_first b rest q = rw q refl

push_byte-onto :
    (b : ℕ) (cs : Bytes) (lines : List Bytes) (rest : Bytes)
    → push_byte b (onto cs (lines, rest)) ≡ onto cs (push_byte b (lines, rest))
unfolding split_lines push_byte
push_byte-onto b cs [] rest = elim (Bool-cases (b == 10)) [
  | inl q ↦ rw (q, push_byte) refl
  | inr q ↦ sym (ap (onto cs) (push_byte_first b rest q))
]
push_byte-onto b cs (line ∷ lines) rest = elim (Bool-cases (b == 10)) [
  | inl q ↦ rw (q, push_byte) refl
  | inr q ↦ rw (q, push_byte) refl
]

-- The complete lines of two chunks are those of the first, and those of its rest with the second.
split_lines-append : (bs cs : Bytes) → split_lines (bs ++ cs) ≡ onto cs (split_lines bs)
unfolding split_lines
split_lines-append [] cs = refl
split_lines-append (b ∷ bs) cs =
    ap (push_byte b) (split_lines-append bs cs)
    ∙ push_byte-onto b cs (split_lines bs).0 (split_lines bs).1

abbrev pub concat : List Bytes → Bytes
concat [] = []
concat (chunk ∷ chunks) = chunk ++ concat chunks

-- No unfinished line is longer than the bound after any of the chunks.
abbrev pub Fits : Bytes → List Bytes → Type 0
Fits buf [] = Unit
Fits buf (chunk ∷ chunks) =
    (length (split_lines (buf ++ chunk)).1 ≤ max_gga_buffer)
    × Fits (split_lines (buf ++ chunk)).1 chunks

read_chunk-fits :
    (buf chunk : Bytes)
    → length (split_lines (buf ++ chunk)).1 ≤ max_gga_buffer
    → read_chunk buf chunk ≡ split_lines (buf ++ chunk)
unfolding read_chunk
read_chunk-fits buf chunk h = ground arith

-- What is left holds no newline.
push_byte-unsplit :
    (b : ℕ) (lines : List Bytes) (rest : Bytes)
    → split_lines rest ≡ ([], rest)
    → split_lines (push_byte b (lines, rest)).1 ≡ ([], (push_byte b (lines, rest)).1)
unfolding split_lines push_byte
push_byte-unsplit b [] rest h = elim (Bool-cases (b == 10)) [
  | inl q ↦ rw (q, push_byte) h
  | inr q ↦ rw (push_byte_first b rest q) (ap (push_byte b) h ∙ push_byte_first b rest q)
]
push_byte-unsplit b (line ∷ lines) rest h = elim (Bool-cases (b == 10)) [
  | inl q ↦ rw (q, push_byte) h
  | inr q ↦ rw (q, push_byte) h
]

split_lines-unsplit : (bs : Bytes) → split_lines (split_lines bs).1 ≡ ([], (split_lines bs).1)
unfolding split_lines
split_lines-unsplit [] = refl
split_lines-unsplit (b ∷ bs) =
    push_byte-unsplit b (split_lines bs).0 (split_lines bs).1 (split_lines-unsplit bs)

-- What the first chunk gives, and the others after it.
abbrev before : List Bytes → List Bytes × Bytes → List Bytes × Bytes
before chunks (lines, rest) = (lines ++ (read_chunks rest chunks).0, (read_chunks rest chunks).1)

read_chunks_onto :
    (buf : Bytes) (chunks : List Bytes)
    → split_lines buf ≡ ([], buf)
    → Fits buf chunks
    → read_chunks buf chunks ≡ split_lines (buf ++ concat chunks)
unfolding read_chunks
read_chunks_onto buf [] e h = sym (ap split_lines (append-nil buf) ∙ e)
read_chunks_onto buf (chunk ∷ chunks) e h =
    let rest : Bytes = (split_lines (buf ++ chunk)).1 in
    let later : read_chunks rest chunks ≡ split_lines (rest ++ concat chunks) =
      read_chunks_onto rest chunks (split_lines-unsplit (buf ++ chunk)) h.1 in
    ap {B = List Bytes × Bytes} (before chunks) (read_chunk-fits buf chunk h.0)
    ∙ ap {B = List Bytes × Bytes}
        (λ (m : List Bytes × Bytes). ((split_lines (buf ++ chunk)).0 ++ m.0, m.1)) later
    ∙ sym (split_lines-append (buf ++ chunk) (concat chunks))
    ∙ ap split_lines (append_assoc buf chunk (concat chunks))

-- As long as no unfinished line is longer than 4096 bytes, the lines that the reader sees and what it
-- keeps at the end depend on the bytes of the rover alone, and not on how they are cut into chunks.
pub read_chunks-concat :
    (chunks : List Bytes) → Fits [] chunks → read_chunks [] chunks ≡ split_lines (concat chunks)
unfolding split_lines
read_chunks-concat chunks h = read_chunks_onto [] chunks refl h

-- Whatever the rover sends, what is kept between two chunks is at most 4096 bytes.
pub length-read_chunks-le :
    (buf : Bytes) (chunks : List Bytes)
    → length buf ≤ max_gga_buffer
    → length (read_chunks buf chunks).1 ≤ max_gga_buffer
unfolding read_chunks read_chunk
length-read_chunks-le buf [] h = h
length-read_chunks-le buf (chunk ∷ chunks) h =
    length-read_chunks-le (read_chunk buf chunk).1 chunks (ground arith)
