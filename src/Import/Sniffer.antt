-- ===== src/Import/Sniffer.antt =====
-- server/import/sniffer.ts. A byte is a number below 256.
pub mod Locality
use ob2_turbo_quant.Common.{
  ℕ, zero, suc, ◌+◌, Bool, true, false, ◌&&◌, ◌||◌, Option, none, some, List, [], ◌∷◌, ◌==◌, leb,
  if◌then◌else◌, Text, codes, take, map, starts_with, trim_start,
}

pub data Format : Type 0 where
  pdf png jpeg gif tiff zip ogg wav mp3 flac m4a html xml plain : Format

-- `head[n] ?? 0`
unfoldable pub byte_at : List ℕ → ℕ → ℕ
byte_at [] n = 0
byte_at (b ∷ bs) zero = b
byte_at (b ∷ bs) (suc n) = byte_at bs n

-- The bytes of `head` from `n` on are those of `magic`.
unfoldable pub has_at : ℕ → List ℕ → List ℕ → Bool
has_at n head [] = true
has_at n head (m ∷ magic) = (byte_at head n == m) && has_at (suc n) head magic

-- The signatures, in the order in which the source asks for them.
unfoldable pub sniff_binary : List ℕ → Option Format
sniff_binary head =
    if has_at 0 head (37 ∷ 80 ∷ 68 ∷ 70 ∷ [])
    then some pdf
    else if has_at 0 head (137 ∷ 80 ∷ 78 ∷ 71 ∷ [])
    then some png
    else if has_at 0 head (255 ∷ 216 ∷ 255 ∷ [])
    then some jpeg
    else if has_at 0 head (71 ∷ 73 ∷ 70 ∷ [])
    then some gif
    else if has_at 0 head (73 ∷ 73 ∷ 42 ∷ [])
        || (has_at 0 head (77 ∷ 77 ∷ []) && has_at 3 head (42 ∷ []))
    then some tiff
    else if has_at 0 head (80 ∷ 75 ∷ 3 ∷ 4 ∷ [])
    then some zip
    else if has_at 0 head (79 ∷ 103 ∷ 103 ∷ 83 ∷ [])
    then some ogg
    else if has_at 0 head (82 ∷ 73 ∷ 70 ∷ 70 ∷ []) && has_at 8 head (87 ∷ 65 ∷ 86 ∷ 69 ∷ [])
    then some wav
    else if has_at 0 head (102 ∷ 76 ∷ 97 ∷ 67 ∷ [])
    then some flac
    else if has_at 0 head (73 ∷ 68 ∷ 51 ∷ [])
        || has_at 0 head (255 ∷ 251 ∷ [])
        || has_at 0 head (255 ∷ 243 ∷ [])
        || has_at 0 head (255 ∷ 242 ∷ [])
    then some mp3
    else if has_at 4 head (102 ∷ 116 ∷ 121 ∷ 112 ∷ 77 ∷ 52 ∷ 65 ∷ [])
    then some m4a
    else none

unfoldable pub is_printable : ℕ → Bool
is_printable b = (b == 9) || (b == 10) || (b == 13) || (leb 32 b && leb b 126)

-- `printable === probeLen`
unfoldable pub all_printable : List ℕ → Bool
all_printable [] = true
all_printable (b ∷ bs) = is_printable b && all_printable bs

-- `toLowerCase` of a printable character.
unfoldable pub ascii_lower : ℕ → ℕ
ascii_lower c = if leb 65 c && leb c 90 then c + 32 else c

-- The kind of text, from the first 64 bytes, all printable, which decode to the same codes.
unfoldable pub sniff_text : List ℕ → Format
sniff_text bytes =
    let sample = map ascii_lower (trim_start bytes) in
    if starts_with (codes "<!doctype html") sample || starts_with (codes "<html") sample
    then html
    else if starts_with (codes "<?xml") sample
    then xml
    else plain

unfoldable pub content_type : Format → Text
content_type pdf = codes "application/pdf"
content_type png = codes "image/png"
content_type jpeg = codes "image/jpeg"
content_type gif = codes "image/gif"
content_type tiff = codes "image/tiff"
content_type zip = codes "application/zip"
content_type ogg = codes "audio/ogg"
content_type wav = codes "audio/wav"
content_type mp3 = codes "audio/mpeg"
content_type flac = codes "audio/flac"
content_type m4a = codes "audio/mp4"
content_type html = codes "text/html"
content_type xml = codes "application/xml"
content_type plain = codes "text/plain"

-- The verdict from the first 16, 256 and 64 bytes.
unfoldable pub sniff_parts : List ℕ → List ℕ → List ℕ → Option Format
sniff_parts head probe sample = elim (sniff_binary head) [
  | some format ↦ some format
  | none ↦ if all_printable probe then some (sniff_text sample) else none
]

unfoldable pub sniff_magic_bytes : List ℕ → Option Format
sniff_magic_bytes [] = none
sniff_magic_bytes (b ∷ bs) =
    let bytes = b ∷ bs in sniff_parts (take 16 bytes) (take 256 bytes) (take 64 bytes)
