-- ===== src/Ring/Header.antt =====
-- `hdr_t` of src/ringbuffer.c: an int32_t tag and a uint32_t length, as the eight bytes that
-- sizeof(hdr_t) and a little-endian machine give it.
use luajack.Prelude.{
  ℕ, ◌+◌, ◌*◌, ◌/◌, ◌%◌, ◌^◌, ◌<◌, ◌≡◌, refl, List, [], ◌∷◌, ◌++◌, length, take, drop, arith, ap,
  ◌∙◌,
}

-- `tag` is the bit pattern of the int32_t.
pub record Hdr : Type 0 where
  pub tag : ℕ
  pub len : ℕ

abbrev pub sizeof_hdr : ℕ
sizeof_hdr = 8

-- The bytes of a 32-bit word, least significant first.
unfoldable pub word_bytes : ℕ → List ℕ
word_bytes w = w % 256 ∷ w / 256 % 256 ∷ w / 65536 % 256 ∷ w / 16777216 % 256 ∷ []

unfoldable pub hdr_bytes : Hdr → List ℕ
hdr_bytes h = word_bytes h.tag ++ word_bytes h.len

-- The word that four bytes hold.
unfoldable pub word_of : List ℕ → ℕ
word_of (a ∷ b ∷ c ∷ d ∷ _) = a + 256 * b + 65536 * c + 16777216 * d
word_of _ = 0

-- The header that a peek of eight bytes fills in.
unfoldable pub hdr_of : List ℕ → Hdr
hdr_of bs = record { tag = word_of (take 4 bs); len = word_of (drop 4 bs) }

pub length-hdr_bytes : (h : Hdr) → length (hdr_bytes h) ≡ 8
unfolding hdr_bytes word_bytes
length-hdr_bytes h = refl

word_of-word_bytes : (w : ℕ) → w < 2 ^ 32 → word_of (word_bytes w) ≡ w
unfolding word_of word_bytes
word_of-word_bytes w h = omega arith

take-hdr_bytes : (h : Hdr) → take 4 (hdr_bytes h) ≡ word_bytes h.tag
unfolding hdr_bytes word_bytes
take-hdr_bytes h = refl

drop-hdr_bytes : (h : Hdr) → drop 4 (hdr_bytes h) ≡ word_bytes h.len
unfolding hdr_bytes word_bytes
drop-hdr_bytes h = refl

tag-hdr_of : (h : Hdr) → h.tag < 2 ^ 32 → (hdr_of (hdr_bytes h)).tag ≡ h.tag
unfolding hdr_of
tag-hdr_of h t = ap word_of (take-hdr_bytes h) ∙ word_of-word_bytes h.tag t

len-hdr_of : (h : Hdr) → h.len < 2 ^ 32 → (hdr_of (hdr_bytes h)).len ≡ h.len
unfolding hdr_of
len-hdr_of h l = ap word_of (drop-hdr_bytes h) ∙ word_of-word_bytes h.len l

-- Decoding the bytes of a header gives the header back.
pub hdr_of-hdr_bytes : (h : Hdr) → h.tag < 2 ^ 32 → h.len < 2 ^ 32 → hdr_of (hdr_bytes h) ≡ h
hdr_of-hdr_bytes h t l = λ i. record { tag = tag-hdr_of h t i; len = len-hdr_of h l i }
