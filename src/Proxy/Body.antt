-- ===== src/Proxy/Body.antt =====
-- `StreamOrBuffer` of pkg/body/buffer.go.
use prompt_graft.Base.{
  ℕ, suc, ◌≤◌, Bool, true, false, ◌||◌, ◌&&◌, Option, none, some, [], ◌≡◌, inl, inr, refl,
  if◌then◌else◌, Bytes, codes, length, take, ltb, leb, arith, Bool-cases, take_all, length-take,
}
use prompt_graft.Text.{has_prefix, to_lower, trim_space}
use prompt_graft.Proxy.Http.{Reader}

-- The three results: the buffer, the stream that is left to read, and whether there was an error.
pub record Buffered : Type 0 where
  pub buffer : Bytes
  pub stream : Option Bytes
  pub failed : Bool

-- The content types that are never buffered.
unfoldable pub is_streamed : Bytes → Bool
unfolding has_prefix to_lower trim_space
is_streamed content_type =
    let ct = to_lower (trim_space content_type) in
    has_prefix ct (codes "multipart/")
    || has_prefix ct (codes "application/octet-stream")
    || has_prefix ct (codes "audio/")
    || has_prefix ct (codes "video/")
    || has_prefix ct (codes "image/")

-- A limited read of max + 1 bytes meets the error behind the content only if it reads that far.
unfoldable pub stream_or_buffer : Bytes → Reader → ℕ → Buffered
stream_or_buffer content_type body max =
    let buf = take (suc max) body.content in
    if is_streamed content_type
    then record { buffer = []; stream = some body.content; failed = false }
    else if body.fails && leb (length body.content) max
    then record { buffer = []; stream = none; failed = true }
    else if ltb max (length buf)
    then record { buffer = []; stream = some body.content; failed = false }
    else record { buffer = buf; stream = none; failed = false }

-- What the caller sends on: the stream if there is one, else the buffer.
abbrev pub or_stream : Option Bytes → Bytes → Bytes
or_stream none buffer = buffer
or_stream (some s) buffer = s

-- A body that is read without an error is whole: the stream, or else the buffer, is what the client
-- sent, and the buffer has at most `max` bytes. An error leaves neither.
pub stream_or_buffer_whole :
    (content_type : Bytes) (body : Reader) (max : ℕ)
    → ((stream_or_buffer content_type body max).failed ≡ false
        → (or_stream
              (stream_or_buffer content_type body max).stream
              (stream_or_buffer content_type body max).buffer
            ≡ body.content)
          × (length (stream_or_buffer content_type body max).buffer ≤ max))
      × ((stream_or_buffer content_type body max).failed ≡ true
          → ((stream_or_buffer content_type body max).buffer ≡ [])
            × ((stream_or_buffer content_type body max).stream ≡ none))
unfolding stream_or_buffer
stream_or_buffer_whole content_type body max = elim (Bool-cases (is_streamed content_type)) [
  | inl e ↦ rw e ((λ _. (refl, omega arith)), (λ h. cc))
  | inr e ↦ elim (Bool-cases (body.fails && leb (length body.content) max)) [
    | inl bad ↦ rw (e, bad) ((λ h. cc), (λ _. (refl, refl)))
    | inr good ↦ elim (Bool-cases (ltb max (length (take (suc max) body.content)))) [
      | inl long ↦ rw (e, good, long) ((λ _. (refl, omega arith)), (λ h. cc))
      | inr short ↦
          rw (e, good, short)
            ((λ _. (take_all (suc max) body.content (fits short), buffer_fits short)), (λ h. cc))
    ]
  ]
]
  where
    buffer_fits :
        ltb max (length (take (suc max) body.content)) ≡ false
        → length (take (suc max) body.content) ≤ max
    buffer_fits short = ground arith

    fits : ltb max (length (take (suc max) body.content)) ≡ false → length body.content ≤ suc max
    fits short = omega (arith, buffer_fits short, length-take (suc max) body.content)
