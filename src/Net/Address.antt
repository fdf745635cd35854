-- ===== src/Net/Address.antt =====
-- net.SplitHostPort and net.JoinHostPort; and the addresses of internal/transfer/p2p.go.
use goxfer.Base.{
  ℕ, ◌≡◌, refl, Bool, true, false, not, ◌||◌, [], ◌∷◌, ◌++◌, Option, none, some, Text, codes,
  text_eq, is_empty, ◌==◌, if◌then◌else◌, arith,
}

abbrev pub has_byte : ℕ → Text → Bool
has_byte b [] = false
has_byte b (c ∷ s) = c == b || has_byte b s

abbrev split_before : ℕ → ℕ → Text → Option (Text × Text) → Option (Text × Text)
split_before b c s none = if c == b then some ([], s) else none
split_before b c s (some (front, back)) = some (c ∷ front, back)

-- What is before the last `b`, and behind it.
unfoldable pub split_last : ℕ → Text → Option (Text × Text)
split_last b [] = none
split_last b (c ∷ s) = split_before b c s (split_last b s)

-- What is before the first `b`, and behind it.
abbrev add_front : ℕ → Option (Text × Text) → Option (Text × Text)
add_front c none = none
add_front c (some (front, back)) = some (c ∷ front, back)

abbrev split_first : ℕ → Text → Option (Text × Text)
split_first b [] = none
split_first b (c ∷ s) =
    let rest = split_first b s in if c == b then some ([], s) else add_front c rest

-- A host in brackets ends just before the last colon.
abbrev bracketed : Text → Option (Text × Text) → Option (Text × Text)
bracketed s none = none
bracketed s (some (host, [])) = none
bracketed s (some (host, c ∷ port)) =
    if not (c == b':')
      || has_byte b':' port
      || has_byte b'[' host
      || has_byte b'[' port
      || has_byte b']' port
    then none
    else some (host, port)

abbrev unbracketed : Option (Text × Text) → Option (Text × Text)
unbracketed none = none
unbracketed (some (host, port)) =
    if has_byte b':' host
      || has_byte b'[' host
      || has_byte b'[' port
      || has_byte b']' host
      || has_byte b']' port
    then none
    else some (host, port)

abbrev split_address : Text → Option (Text × Text)
split_address [] = none
split_address (c ∷ s) =
    if c == b'[' then bracketed s (split_first b']' s) else unbracketed (split_last b':' (c ∷ s))

unfoldable pub split_host_port : Text → Option (Text × Text)
unfolding split_last
split_host_port s = split_address s

unfoldable pub join_host_port : Text → Text → Text
join_host_port host port =
    if has_byte b':' host
    then codes "[" ++ (host ++ (codes "]:" ++ port))
    else host ++ (codes ":" ++ port)

abbrev is_unspecified : Text → Bool
is_unspecified host =
    is_empty host
    || text_eq host (codes "0.0.0.0")
    || text_eq host (codes "::")
    || text_eq host (codes "[::]")

abbrev receiver_address : Text → Option (Text × Text) → Text
receiver_address addr none = addr
receiver_address addr (some (host, port)) =
    if is_unspecified host
    then join_host_port (codes "<sender-public-host>") port
    else join_host_port host port

unfoldable pub direct_receiver_addr : Text → Text
direct_receiver_addr addr = receiver_address addr (split_host_port addr)

-- Texts without the characters that the two functions look for.
abbrev pub is_plain_host : Text → Bool
is_plain_host t = not (has_byte b':' t || has_byte b'[' t || has_byte b']' t)

split_last-none : (port : Text) → has_byte b':' port ≡ false → split_last b':' port ≡ none
unfolding split_last
split_last-none [] h = refl
split_last-none (c ∷ port) h = ground (arith, split_last-none port)

split_last-append :
    (host port : Text)
    → has_byte b':' port ≡ false
    → split_last b':' (host ++ (b':' ∷ port)) ≡ some (host, port)
unfolding split_last
split_last-append [] port h = rw (split_last-none port h)
split_last-append (c ∷ host) port h = rw (split_last-append host port h)

pub split_host_port-join_host_port :
    (host port : Text)
    → is_plain_host host ≡ true
    → is_plain_host port ≡ true
    → split_host_port (join_host_port host port) ≡ some (host, port)
unfolding split_host_port join_host_port
split_host_port-join_host_port [] port h k = ground (arith, split_last-none port)
split_host_port-join_host_port (c ∷ host) port h k =
    ground (arith, split_last-append (c ∷ host) port)
