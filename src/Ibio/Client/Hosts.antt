-- ===== src/Ibio/Client/Hosts.antt =====
-- examples/ibio_client.c: which server the calls of an application go to.
use libibtl.Base.{
  ℕ, ◌+◌, ◌<◌, ◌≡◌, refl, sym, ap, subst, ◌∙◌, some, some_inj, List, [], ◌∷◌, ◌++◌, length, set,
  get_elem?, get_elem?-set_self, ltb, ltb→lt, lt→ltb, Bool-cases, Option-cases, inl, inr,
}
use libibtl.Base.Int.{ℤ, pos, negsuc}
use libibtl.Datatype.{Memory}
use libibtl.Engine.{any_tag}
use libibtl.ProcMan.{read_at, write_at}
use libibtl.Ibio.{
  op_open, ibvio_chunk_size, IbvioOpen, request, Call, connect, send, recv_open, recv_bytes,
}
use libibtl.Ibio.Tag.{serialize_tag}
use libibtl.Ibio.Chunks.{◌>>=◌, Chunk, chunks_of}
use libibtl.Ibio.Name.{colon, NoColon, strtok, strtok-append}
use libibtl.Ibio.Client.{Client, send_chunks, ibtl_open, ibtl_write}

abbrev pub peer_of : Call → ℤ
peer_of (connect peer hostname) = peer
peer_of (send peer tag payload) = peer
peer_of (recv_open peer tag) = peer
peer_of (recv_bytes peer tag at size) = peer

-- every call is one with the peer
abbrev pub AllWith : (peer : ℤ) → List Call → Type 0
AllWith peer [] = Unit
AllWith peer (call ∷ calls) = (peer_of call ≡ peer) × AllWith peer calls

send_chunks-AllWith :
    (host tag : ℤ) (memory : Memory) (buf : ℕ) (chunks : List Chunk) (last : Call)
    → peer_of last ≡ host
    → AllWith host (send_chunks host tag memory buf chunks ++ last ∷ [])
unfolding send_chunks
send_chunks-AllWith host tag memory buf [] last e = (e, tt)
send_chunks-AllWith host tag memory buf ((at, size) ∷ chunks) last e =
    (refl, send_chunks-AllWith host tag memory buf chunks last e)

-- ibtl_open of `host:path`, where neither part is empty or has a colon, the name fits its buffer of 256
-- bytes and the server's descriptor is in the table: the client connects to the host as its next peer,
-- asks there for the path, and enters this peer, and only this, under the descriptor that it returns.
pub ibtl_open-append :
    (client : Client) (c d : ℕ) (host path : List ℕ) (flags mode : ℤ) (stack reply : IbvioOpen)
    (fd : ℕ)
    → NoColon (c ∷ host)
    → NoColon (d ∷ path)
    → length ((c ∷ host) ++ colon ∷ d ∷ path) < 256
    → reply.fd ≡ pos fd
    → fd < length client.host_ids
    → let peer = pos client.next_host_id in
      ibtl_open client ((c ∷ host) ++ colon ∷ d ∷ path) flags mode stack reply
      ≡ some (
        connect peer (c ∷ host)
            ∷ send peer
                (serialize_tag (pos op_open) (pos 0))
                (request (record stack { path = d ∷ path; flags = flags; mode = mode }))
            ∷ recv_open peer any_tag
            ∷ [],
        pos fd,
        record { host_ids = set client.host_ids fd peer; next_host_id = client.next_host_id + 1 },
      )
unfolding ibtl_open write_at
ibtl_open-append client c d host path flags mode stack reply fd nc nd short is_fd inside =
    let (first, second) = strtok-append c d host path nc nd in
    rw (lt→ltb _ _ short, first, ◌>>=◌, second, is_fd, lt→ltb _ _ inside) refl

read_at-write_at : (xs ys : List ℤ) (i a : ℤ) → write_at xs i a ≡ some ys → read_at ys i ≡ some a
unfolding write_at read_at
read_at-write_at xs ys (pos i) a e = elim (Bool-cases (ltb i (length xs))) [
  | inl inside ↦
      let same : set xs i a ≡ ys = some_inj (rw inside at e) in
      ap (λ zs. get_elem? zs i) (sym same) ∙ get_elem?-set_self xs i a (ltb→lt _ _ inside)
  | inr outside ↦ let none_eq = rw outside at e in absurd cc
]
read_at-write_at xs ys (negsuc i) a e = absurd cc

ibtl_open-peer :
    (client : Client) (pathname : List ℕ) (flags mode : ℤ) (stack reply : IbvioOpen)
    (opening : List Call) (fd : ℤ) (client' : Client)
    → ibtl_open client pathname flags mode stack reply ≡ some (opening, fd, client')
    → AllWith (pos client.next_host_id) opening
      × (read_at client'.host_ids fd ≡ some (pos client.next_host_id))
unfolding ibtl_open
ibtl_open-peer client pathname flags mode stack reply opening fd client' opened =
    let peer = pos client.next_host_id in
    elim (Bool-cases (ltb (length pathname) 256)) [
      | inr long ↦ let none_eq = rw long at opened in absurd cc
      | inl short ↦ elim (Option-cases (strtok pathname)) [
        | inl no_host ↦ let none_eq = rw (short, no_host, ◌>>=◌) at opened in absurd cc
        | inr ((host, rest), e) ↦ elim (Option-cases (strtok rest)) [
          | inl no_path ↦ let none_eq = rw (short, e, ◌>>=◌, no_path) at opened in absurd cc
          | inr ((path, rest'), e') ↦ elim (Option-cases (write_at client.host_ids reply.fd peer)) [
            | inl outside ↦ let none_eq = rw (short, e, ◌>>=◌, e', outside) at opened in absurd cc
            | inr (ids, entered) ↦
                let same = some_inj (rw (short, e, ◌>>=◌, e', entered) at opened) in
                subst (λ p. AllWith peer p.0 × (read_at p.2.host_ids p.1 ≡ some peer)) same
                  (
                    (refl, (refl, (refl, tt))),
                    read_at-write_at client.host_ids ids reply.fd peer entered,
                  )
          ]
        ]
      ]
    ]

ibtl_write-AllWith :
    (client : Client) (fd peer : ℤ)
    → read_at client.host_ids fd ≡ some peer
    → (memory : Memory) (buf count : ℕ) (stack reply : IbvioOpen) (calls : List Call) (r : ℤ)
    → ibtl_write client fd memory buf count stack reply ≡ some (calls, r)
    → AllWith peer calls
unfolding ibtl_write
ibtl_write-AllWith client fd peer entered memory buf count stack reply calls r written =
    elim (Option-cases (chunks_of count ibvio_chunk_size)) [
      | inl overflow ↦ let none_eq = rw (entered, ◌>>=◌, overflow) at written in absurd cc
      | inr (chunks, cut) ↦
          let same = some_inj (rw (entered, ◌>>=◌, cut) at written) in
          subst (λ p. AllWith peer p.0) same
            (refl, send_chunks-AllWith peer _ memory buf chunks (recv_open peer any_tag) refl)
    ]

-- After an open that returned the descriptor `fd`, all calls of a write to it go to the peer that this
-- open connected to, also where an earlier open had returned the same descriptor for another server.
pub ibtl_open-write :
    (client : Client) (pathname : List ℕ) (flags mode : ℤ) (stack reply : IbvioOpen)
    (opening : List Call) (fd : ℤ) (client' : Client)
    → ibtl_open client pathname flags mode stack reply ≡ some (opening, fd, client')
    → (memory : Memory) (buf count : ℕ) (stack' reply' : IbvioOpen) (calls : List Call) (r : ℤ)
    → ibtl_write client' fd memory buf count stack' reply' ≡ some (calls, r)
    → AllWith (pos client.next_host_id) opening × AllWith (pos client.next_host_id) calls
ibtl_open-write client pathname flags mode stack reply opening fd client' opened memory buf count
      stack' reply' calls r written =
    let (opening_with, entered) =
      ibtl_open-peer client pathname flags mode stack reply opening fd client' opened in
    (
      opening_with,
      ibtl_write-AllWith client' fd _ entered memory buf count stack' reply' calls r written,
    )
