-- ===== src/Ibio/Name.antt =====
-- The name `host:path` of a remote file, which ibtl_open of examples/ibio_client.c takes apart by
-- strtok. A string is the list of its bytes, without the 0 at its end.
use libibtl.Base.{
  ℕ, ◌≡◌, refl, ap, false, Option, none, some, List, [], ◌∷◌, ◌++◌, ◌==◌, if◌then◌else◌,
}

-- ':'
abbrev pub colon : ℕ
colon = 58

-- the delimiters in front of a token
unfoldable pub skip_colons : List ℕ → List ℕ
skip_colons [] = []
skip_colons (c ∷ s) = if c == colon then skip_colons s else c ∷ s

-- the token that begins here, and what strtok keeps for the next call
unfoldable pub token : List ℕ → List ℕ × List ℕ
token [] = ([], [])
token (c ∷ s) = let (t, rest) = token s in if c == colon then ([], s) else (c ∷ t, rest)

-- NULL where only delimiters are left
token_of : List ℕ → Option (List ℕ × List ℕ)
unfolding token
token_of [] = none
token_of (c ∷ s) = some (token (c ∷ s))

-- strtok(s, ":")
unfoldable pub strtok : List ℕ → Option (List ℕ × List ℕ)
unfolding skip_colons token_of
strtok s = token_of (skip_colons s)

abbrev pub NoColon : List ℕ → Type 0
NoColon [] = Unit
NoColon (c ∷ s) = ((c == colon) ≡ false) × NoColon s

token-append : (t rest : List ℕ) → NoColon t → token (t ++ colon ∷ rest) ≡ (t, rest)
unfolding token
token-append [] rest n = refl
token-append (c ∷ t) rest n = rw (n.0, token-append t rest n.1) refl

token_end : (t : List ℕ) → NoColon t → token t ≡ (t, [])
unfolding token
token_end [] n = refl
token_end (c ∷ t) n = rw (n.0, token_end t n.1) refl

-- The first call of strtok on `host:path` gives the host, and the second the path, where neither is
-- empty or has a colon.
pub strtok-append :
    (c d : ℕ) (host path : List ℕ)
    → NoColon (c ∷ host)
    → NoColon (d ∷ path)
    → (strtok ((c ∷ host) ++ colon ∷ d ∷ path) ≡ some (c ∷ host, d ∷ path))
      × (strtok (d ∷ path) ≡ some (d ∷ path, []))
unfolding strtok
strtok-append c d host path nc nd = (
  rw nc.0 (ap some (token-append (c ∷ host) (d ∷ path) nc)),
  rw nd.0 (ap some (token_end (d ∷ path) nd)),
)
