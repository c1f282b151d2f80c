-- ===== src/Reach/Sni/Peek.antt =====
-- Peeking forwards what it read, and its answer does not depend on how the bytes were cut up.
use vulos_relay.Base.{
  ℕ, zero, suc, ◌+◌, ◌*◌, ◌≤◌, ◌<◌, ◌≡◌, ◌≢◌, refl, sym, ap, subst, ◌∙◌, List, [], ◌∷◌, ◌++◌,
  append_assoc, arith, Bytes, length, take, length-append, All, ◌⊎◌, inl, inr,
}
use vulos_relay.Base.Result.{Result, ok, err}
use vulos_relay.Reach.Sni.{
  SniError, Parsed, incomplete, complete, try_parse, SocketRead, received, failed, ClientHelloPeek,
  peek_from, peek_client_hello, max_client_hello_bytes,
}

take-append_le : (n : ℕ) (s t : Bytes) → n ≤ length s → take n (s ++ t) ≡ take n s
take-append_le zero s t h = refl
take-append_le (suc n) [] t h = absurd (omega arith)
take-append_le (suc n) (b ∷ s) t h = ap (◌∷◌ b) (take-append_le n s t (omega arith))

-- Once the parser has an answer, a name or an error, more bytes do not change it.
try_parse-append : (s t : Bytes) → try_parse s ≢ ok incomplete → try_parse (s ++ t) ≡ try_parse s
unfolding try_parse
try_parse-append [] t h = absurd (h refl)
try_parse-append (a ∷ []) t h = absurd (h refl)
try_parse-append (a ∷ b ∷ []) t h = absurd (h refl)
try_parse-append (a ∷ b ∷ c ∷ []) t h = absurd (h refl)
try_parse-append (a ∷ b ∷ c ∷ d ∷ []) t h = absurd (h refl)
try_parse-append (a ∷ b ∷ c ∷ d ∷ e ∷ s) t h =
    ground (arith, take-append_le (d * 256 + e) s t, length-append s t)

-- The bytes that a run of reads delivers.
abbrev pub bytes_of : List SocketRead → Bytes
bytes_of [] = []
bytes_of (received chunk ∷ reads) = chunk ++ bytes_of reads
bytes_of (failed ∷ reads) = bytes_of reads

-- What a successful peek that began with `buf` has done.
abbrev IsFaithful : Bytes → Result SniError (ClientHelloPeek × List SocketRead) → Type 0
IsFaithful stream (ok (p, left)) =
    (p.raw ++ bytes_of left ≡ stream) × (try_parse p.raw ≡ ok (complete p.server_name))
IsFaithful stream (err e) = Unit {0}

-- The three answers of the parser.
Parsed-cases :
    (r : Result SniError Parsed)
    → ((e : SniError) × (r ≡ err e))
      ⊎ (((name : Bytes) × (r ≡ ok (complete name))) ⊎ (r ≡ ok incomplete))
Parsed-cases (err e) = inl (e, refl)
Parsed-cases (ok (complete name)) = inr (inl (name, refl))
Parsed-cases (ok incomplete) = inr (inr refl)

peek_from-IsFaithful :
    (reads : List SocketRead) (buf : Bytes)
    → IsFaithful (buf ++ bytes_of reads) (peek_from buf reads)
unfolding peek_from
peek_from-IsFaithful [] buf = elim (Parsed-cases (try_parse buf)) [
  | inl (e, q) ↦ rw (q, peek_from) tt
  | inr (inl (name, q)) ↦ rw (q, peek_from) (refl, q)
  | inr (inr q) ↦ rw (q, peek_from) (ground arith)
]
peek_from-IsFaithful (failed ∷ reads) buf = elim (Parsed-cases (try_parse buf)) [
  | inl (e, q) ↦ rw (q, peek_from) tt
  | inr (inl (name, q)) ↦ rw (q, peek_from) (refl, q)
  | inr (inr q) ↦ rw (q, peek_from) (ground arith)
]
peek_from-IsFaithful (received chunk ∷ reads) buf = elim (Parsed-cases (try_parse buf)) [
  | inl (e, q) ↦ rw (q, peek_from) tt
  | inr (inl (name, q)) ↦ rw (q, peek_from) (refl, q)
  | inr (inr q) ↦
      rw (q, peek_from)
        (ground (
          arith,
          append_assoc buf chunk (bytes_of reads),
          peek_from-IsFaithful reads (buf ++ chunk),
        ))
]

-- A successful peek loses nothing: the buffer to replay and what the socket still has to give make up
-- exactly the bytes sent, and the buffer is one in which the parser finds the server name.
pub peek_faithful :
    (reads left : List SocketRead) (p : ClientHelloPeek)
    → peek_client_hello reads ≡ ok (p, left)
    → (p.raw ++ bytes_of left ≡ bytes_of reads) × (try_parse p.raw ≡ ok (complete p.server_name))
unfolding peek_client_hello
peek_faithful reads left p h = subst (IsFaithful (bytes_of reads)) h (peek_from-IsFaithful reads [])

-- Of two lists that begin the same list one begins the other.
prefix_total :
    (a b x y : Bytes)
    → a ++ x ≡ b ++ y
    → ((z : Bytes) × (b ≡ a ++ z)) ⊎ ((z : Bytes) × (a ≡ b ++ z))
prefix_total [] b x y e = inl (b, refl)
prefix_total (c ∷ a) [] x y e = inr (c ∷ a, refl)
prefix_total (c ∷ a) (d ∷ b) x y e = elim (prefix_total a b x y (ground arith)) [
  | inl (z, q) ↦ inl (z, ground arith)
  | inr (z, q) ↦ inr (z, ground arith)
]

complete_prefix :
    (a z m n : Bytes) → try_parse a ≡ ok (complete m) → try_parse (a ++ z) ≡ ok (complete n) → m ≡ n
complete_prefix a z m n h k =
    let e = try_parse-append a z (λ q. cc (sym h ∙ q)) in cc (sym h ∙ sym e ∙ k)

-- However the same bytes are cut into reads, two peeks that succeed find the same server name.
pub peek_chunking :
    (reads₁ left₁ reads₂ left₂ : List SocketRead) (p₁ p₂ : ClientHelloPeek)
    → bytes_of reads₁ ≡ bytes_of reads₂
    → peek_client_hello reads₁ ≡ ok (p₁, left₁)
    → peek_client_hello reads₂ ≡ ok (p₂, left₂)
    → p₁.server_name ≡ p₂.server_name
peek_chunking reads₁ left₁ reads₂ left₂ p₁ p₂ same h₁ h₂ =
    let (e₁, q₁) = peek_faithful reads₁ left₁ p₁ h₁ in
    let (e₂, q₂) = peek_faithful reads₂ left₂ p₂ h₂ in
    elim (prefix_total p₁.raw p₂.raw _ _ (e₁ ∙ same ∙ sym e₂)) [
      | inl (z, e) ↦ complete_prefix p₁.raw z _ _ q₁ (ap try_parse (sym e) ∙ q₂)
      | inr (z, e) ↦ sym (complete_prefix p₂.raw z _ _ q₂ (ap try_parse (sym e) ∙ q₁))
    ]

peek_from-complete :
    (buf name : Bytes) (reads : List SocketRead)
    → try_parse buf ≡ ok (complete name)
    → peek_from buf reads ≡ ok (record { server_name = name; raw = buf }, reads)
unfolding peek_from
peek_from-complete buf name [] h = rw (h, peek_from)
peek_from-complete buf name (failed ∷ reads) h = rw (h, peek_from)
peek_from-complete buf name (received chunk ∷ reads) h = rw (h, peek_from)

-- Whatever comes in one read with a complete ClientHello is consumed and kept with it: the buffer
-- holds the bytes that follow the record too.
pub peek_past_record :
    (hello more name : Bytes) (reads : List SocketRead)
    → try_parse hello ≡ ok (complete name)
    → peek_client_hello (received (hello ++ more) ∷ reads)
      ≡ ok (record { server_name = name; raw = hello ++ more }, reads)
unfolding peek_client_hello try_parse
peek_past_record [] more name reads h = cc
peek_past_record (b ∷ hello) more name reads h = ground (
  arith,
  peek_from-complete (b ∷ (hello ++ more)) name reads
      (try_parse-append (b ∷ hello) more (λ q. cc (sym h ∙ q)) ∙ h),
)

-- A buffer within the bound of the peek, which is tested before each read of up to 1024 bytes.
abbrev IsSmall : Result SniError (ClientHelloPeek × List SocketRead) → Type 0
IsSmall (ok (p, left)) = length p.raw < max_client_hello_bytes + 1024
IsSmall (err e) = Unit {0}

abbrev pub IsChunk : SocketRead → Type 0
IsChunk (received chunk) = length chunk ≤ 1024
IsChunk failed = Unit {0}

peek_from-IsSmall :
    (reads : List SocketRead) (buf : Bytes)
    → All IsChunk reads
    → length buf < max_client_hello_bytes + 1024
    → IsSmall (peek_from buf reads)
unfolding peek_from
peek_from-IsSmall [] buf c h = elim (Parsed-cases (try_parse buf)) [
  | inl (e, q) ↦ rw (q, peek_from) tt
  | inr (inl (name, q)) ↦ rw (q, peek_from) h
  | inr (inr q) ↦ rw (q, peek_from) (ground arith)
]
peek_from-IsSmall (failed ∷ reads) buf c h = elim (Parsed-cases (try_parse buf)) [
  | inl (e, q) ↦ rw (q, peek_from) tt
  | inr (inl (name, q)) ↦ rw (q, peek_from) h
  | inr (inr q) ↦ rw (q, peek_from) (ground arith)
]
peek_from-IsSmall (received chunk ∷ reads) buf c h = elim (Parsed-cases (try_parse buf)) [
  | inl (e, q) ↦ rw (q, peek_from) tt
  | inr (inl (name, q)) ↦ rw (q, peek_from) h
  | inr (inr q) ↦
      rw (q, peek_from)
        (ground (arith, length-append buf chunk, peek_from-IsSmall reads (buf ++ chunk) c.1))
]

-- With reads of at most 1024 bytes, the buffer that a peek gives back stays below the peek bound and
-- one read more.
peek_bound :
    (reads left : List SocketRead) (p : ClientHelloPeek)
    → All IsChunk reads
    → peek_client_hello reads ≡ ok (p, left)
    → length p.raw < max_client_hello_bytes + 1024
unfolding peek_client_hello
peek_bound reads left p c h = subst IsSmall h (peek_from-IsSmall reads [] c (omega arith))
