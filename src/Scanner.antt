-- ===== src/Scanner.antt =====
-- extensions/storages/source/Scanner.ts: a stream that counts bytes, detects the type of its
-- content by its first bytes, and interrupts itself. Negotiation of types is a parameter; the
-- digest and the passing on of data are left out.
pub mod Detects
use kookaburra.Prelude.{
  ℕ, zero, suc, ◌+◌, ◌-◌, String, Bool, true, false, not, ◌&&◌, ◌||◌, Option, none, some, List, [],
  ◌∷◌, ◌++◌, length, drop, ltb, leb, nat_eq, if◌then◌else◌, ◌==◌, find?, any, or_else,
}
use mathlib.Core.Option

abbrev pub take {ℓ} : {A : Type ℓ} → ℕ → List A → List A
take zero xs = []
take (suc n) [] = []
take (suc n) (x ∷ xs) = x ∷ take n xs

-- A signature by bytes: the offset, and the bytes, of which `none` is a wildcard. The source counts
-- both in hexadecimal digits.
pub record Signature : Type 0 where
  pub kind : String
  pub off : ℕ
  pub bytes : List (Option ℕ)

abbrev pub exactly : List ℕ → List (Option ℕ)
exactly [] = []
exactly (b ∷ bs) = some b ∷ exactly bs

abbrev pub wildcards : List (Option ℕ)
wildcards = none ∷ none ∷ none ∷ none ∷ []

abbrev pub riff : List (Option ℕ)
riff = exactly (0x52 ∷ 0x49 ∷ 0x46 ∷ 0x46 ∷ []) ++ wildcards

abbrev pub signature : List (Option ℕ) → ℕ → String → Signature
signature bytes off kind = record { kind = kind; off = off; bytes = bytes }

-- `SIGNATURES`
abbrev pub signatures : List Signature
signatures =
    signature (exactly (0xff ∷ 0xd8 ∷ 0xff ∷ 0xe0 ∷ [])) 0 "image/jpeg"
    ∷ signature (exactly (0xff ∷ 0xd8 ∷ 0xff ∷ 0xe1 ∷ [])) 0 "image/jpeg"
    ∷ signature (exactly (0xff ∷ 0xd8 ∷ 0xff ∷ 0xe2 ∷ [])) 0 "image/jpeg"
    ∷ signature (exactly (0xff ∷ 0xd8 ∷ 0xff ∷ 0xee ∷ [])) 0 "image/jpeg"
    ∷ signature (exactly (0xff ∷ 0xd8 ∷ 0xff ∷ 0xdb ∷ [])) 0 "image/jpeg"
    ∷ signature (exactly (0x89 ∷ 0x50 ∷ 0x4e ∷ 0x47 ∷ [])) 0 "image/png"
    ∷ signature (exactly (0x47 ∷ 0x49 ∷ 0x46 ∷ 0x38 ∷ [])) 0 "image/gif"
    ∷ signature (riff ++ exactly (0x57 ∷ 0x45 ∷ 0x42 ∷ 0x50 ∷ [])) 0 "image/webp"
    ∷ signature (exactly (0x4a ∷ 0x58 ∷ 0x4c ∷ 0x20 ∷ 0x0d ∷ 0x0a ∷ 0x87 ∷ 0x0a ∷ [])) 4 "image/jxl"
    ∷ signature (exactly (0x66 ∷ 0x74 ∷ 0x79 ∷ 0x70 ∷ 0x68 ∷ 0x65 ∷ 0x69 ∷ 0x63 ∷ [])) 4
        "image/heic"
    ∷ signature (exactly (0x66 ∷ 0x74 ∷ 0x79 ∷ 0x70 ∷ 0x61 ∷ 0x76 ∷ 0x69 ∷ 0x66 ∷ [])) 4
        "image/avif"
    ∷ signature (riff ++ exactly (0x41 ∷ 0x56 ∷ 0x49 ∷ 0x20 ∷ [])) 0 "video/avi"
    ∷ signature (riff ++ exactly (0x57 ∷ 0x41 ∷ 0x56 ∷ 0x45 ∷ [])) 0 "audio/wav"
    ∷ []

-- `HEADER_SIZE`: the largest end of a signature
unfoldable pub largest_end : List Signature → ℕ
largest_end [] = 0
largest_end (s ∷ rest) =
    let most = largest_end rest in
    let end = s.off + length s.bytes in if ltb most end then end else most

unfoldable pub header_size : ℕ
unfolding largest_end
header_size = largest_end signatures

-- The bytes of a signature against the bytes at its offset
unfoldable pub same_bytes : List (Option ℕ) → List ℕ → Bool
same_bytes [] header = true
same_bytes (p ∷ pattern_bytes) [] = false
same_bytes (none ∷ pattern_bytes) (b ∷ header) = same_bytes pattern_bytes header
same_bytes (some a ∷ pattern_bytes) (b ∷ header) = nat_eq a b && same_bytes pattern_bytes header

unfoldable pub find_signature : List ℕ → Option Signature
unfolding same_bytes
find_signature header = find? (λ s. same_bytes s.bytes (drop s.off header)) signatures

pub data Interruption : Type 0 where
  type_mismatch not_acceptable limit_exceeded : Interruption

-- `raised` is the error that the stream is destroyed with, the first one; `error` is the last.
pub record Scanner : Type 0 where
  pub size : ℕ
  pub kind : String
  pub error : Option Interruption
  pub raised : Option Interruption
  pub claim : Option String
  pub accept : Option String
  pub limit : Option ℕ
  pub position : ℕ
  pub completed : Bool
  pub chunks : List ℕ

abbrev pub octets : String
octets = "application/octet-stream"

unfoldable pub new_scanner : Option String → Option String → Option ℕ → Scanner
new_scanner claim accept limit = record {
  size = 0;
  kind = octets;
  error = none;
  raised = none;
  claim = claim;
  accept = accept;
  limit = limit;
  position = 0;
  completed = false;
  chunks = [];
}

unfoldable pub interrupt : Interruption → Scanner → Scanner
interrupt error s = record s {
  completed = true;
  error = some error;
  raised = some (or_else s.raised error);
}

-- `KNOWN_TYPES.has(type)`
unfoldable pub is_known_type : String → Bool
is_known_type kind = any (λ s. s.kind == kind) signatures

-- `verify`
unfoldable pub verify : Option Signature → Scanner → Scanner
unfolding interrupt
verify found s = elim s.claim [
  | none ↦ s
  | some claim ↦
      if claim == octets
      then s
      else (let mismatch : Bool = elim found [
        | none ↦ is_known_type claim
        | some signature_found ↦ not (claim == signature_found.kind)
      ] in
          if mismatch then interrupt type_mismatch s else s)
]

module _ (acceptable : String → String → Bool) where
  -- `match`
  unfoldable pub match_type : String → Scanner → Scanner
  unfolding interrupt
  match_type kind s = elim s.accept [
    | none ↦ s
    | some accept ↦ if acceptable accept kind then s else interrupt not_acceptable s
  ]

  -- `complete` up to `verify`: the type is the signature's, or the one that is claimed.
  unfoldable pub typed : Option Signature → Scanner → Scanner
  typed found s =
      elim (elim found as (λ _. Option String) [ some x ↦ some x.kind | none ↦ s.claim ]) [
        | none ↦ s
        | some kind ↦ record (match_type kind s) { kind = kind }
      ]

  -- `complete`
  unfoldable pub complete : Scanner → Scanner
  complete s =
      let found = find_signature s.chunks in
      record (verify found (typed found s)) { completed = true }

  -- The header's part of `process`, while it is not complete
  unfoldable pub gather : List ℕ → Scanner → Scanner
  unfolding complete
  gather buffer s =
      let kept = take (header_size - s.position) buffer in
      let longer = record s { chunks = s.chunks ++ kept; position = s.position + length kept } in
      if nat_eq longer.position header_size then complete longer else longer

  -- `process`
  unfoldable pub process : List ℕ → Scanner → Scanner
  unfolding gather interrupt
  process buffer s =
      let counted = record s { size = s.size + length buffer } in
      if s.completed
      then counted
      else (let gathered = gather buffer counted in
          elim s.limit [
            | none ↦ gathered
            | some limit ↦
                if ltb limit gathered.size then interrupt limit_exceeded gathered else gathered
          ])

  -- The buffers of a stream in turn
  unfoldable pub feed : List (List ℕ) → Scanner → Scanner
  unfolding process
  feed [] s = s
  feed (buffer ∷ buffers) s = feed buffers (process buffer s)
