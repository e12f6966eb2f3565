-- ===== src/FileTransfer/Placed.antt =====
-- Which chunks of a sequence a receiver accepts, and where in the file their data stands.
use hbb_common.Common.{
  ℕ, ◌+◌, ◌*◌, ◌<◌, ◌≤◌, ◌≡◌, refl, ap, subst, arith, List, [], ◌∷◌, ◌++◌, length, bytes_eq→eq,
  Outcome, ok, err, panic,
}
use hbb_common.FileTransfer.Types.{FileChunk, FileTransferError, FileTransferProgress}
use hbb_common.FileTransfer.Receiver.{Sha256, FileTransferReceiver, accept_chunk}
use hbb_common.FileTransfer.Transfer.{take_in, receive_all}

-- Chunks of one transfer that follow each other in the file from an offset on, each of 1 byte to
-- 256 KiB.
abbrev pub Placed : List ℕ → ℕ → List FileChunk → Type 0
Placed transfer_id offset [] = Unit {0}
Placed transfer_id offset (c ∷ cs) =
    (c.transfer_id ≡ transfer_id)
    × (c.offset ≡ offset)
    × (0 < length c.data_bytes)
    × (length c.data_bytes ≤ 256 * 1024)
    × Placed transfer_id (offset + length c.data_bytes) cs

unfoldable pub data_of : List FileChunk → List ℕ
data_of [] = []
data_of (c ∷ cs) = c.data_bytes ++ data_of cs

module _ (sha : Sha256) where
  -- Those chunks of a sequence that `accept_chunk` answers with `Ok`.
  abbrev pub keep :
      FileTransferReceiver sha
      → FileChunk
      → Outcome FileTransferError (FileTransferProgress × FileTransferReceiver sha)
      → (FileTransferReceiver sha → List FileChunk)
      → List FileChunk
  keep r c (ok a) rest = c ∷ rest a.1
  keep r c (err e) rest = rest r
  keep r c panic rest = rest r

  unfoldable pub accepted : FileTransferReceiver sha → List FileChunk → List FileChunk
  accepted r [] = []
  accepted r (c ∷ cs) = keep r c (accept_chunk sha r c) (λ q. accepted q cs)

  accept_chunk_placed :
      (r : FileTransferReceiver sha) (c : FileChunk)
      (a : FileTransferProgress × FileTransferReceiver sha)
      → accept_chunk sha r c ≡ ok a
      → (c.transfer_id ≡ r.metadata.transfer_id)
        × (c.offset ≡ r.expected_offset)
        × (0 < length c.data_bytes)
        × (length c.data_bytes ≤ 256 * 1024)
        × (a.1.metadata.transfer_id ≡ r.metadata.transfer_id)
        × (a.1.expected_offset ≡ r.expected_offset + length c.data_bytes)
  unfolding accept_chunk
  accept_chunk_placed r c a h = (
    ground (arith, bytes_eq→eq c.transfer_id r.metadata.transfer_id),
    ground arith,
    ground arith,
    ground arith,
    ground arith,
    ground arith,
  )

  pub accepted-Placed :
      (r : FileTransferReceiver sha) (cs : List FileChunk)
      → Placed r.metadata.transfer_id r.expected_offset (accepted r cs)
  unfolding accepted
  accepted-Placed r [] = tt
  accepted-Placed r (c ∷ cs) = by_answer (λ q. accepted-Placed q cs) (accept_chunk sha r c) refl
    where
      by_answer :
          ((q : FileTransferReceiver sha)
            → Placed q.metadata.transfer_id q.expected_offset (accepted q cs))
          → (o : Outcome FileTransferError (FileTransferProgress × FileTransferReceiver sha))
          → accept_chunk sha r c ≡ o
          → Placed r.metadata.transfer_id r.expected_offset (keep r c o (λ q. accepted q cs))
      by_answer rest (ok a) e =
          let (id, at, some_data, small, same_id, moved) = accept_chunk_placed r c a e in
          (
            id,
            at,
            some_data,
            small,
            subst
                (λ (i : List ℕ).
                  Placed i (r.expected_offset + length c.data_bytes) (accepted a.1 cs))
                same_id
                (subst (λ (n : ℕ). Placed a.1.metadata.transfer_id n (accepted a.1 cs)) moved
                  (rest a.1)),
          )
      by_answer rest (err x) e = rest r
      by_answer rest panic e = rest r

  pub data_of-accepted :
      (r : FileTransferReceiver sha) (cs : List FileChunk)
      → data_of (accepted r cs) ≡ (receive_all sha r cs).1
  unfolding accepted data_of receive_all
  data_of-accepted r [] = refl
  data_of-accepted r (c ∷ cs) = by_answer (λ q. data_of-accepted q cs) (accept_chunk sha r c)
    where
      by_answer :
          ((q : FileTransferReceiver sha) → data_of (accepted q cs) ≡ (receive_all sha q cs).1)
          → (o : Outcome FileTransferError (FileTransferProgress × FileTransferReceiver sha))
          → data_of (keep r c o (λ q. accepted q cs))
            ≡ (take_in sha r c o (λ q. receive_all sha q cs)).1
      by_answer rest (ok a) = ap (λ (bs : List ℕ). c.data_bytes ++ bs) (rest a.1)
      by_answer rest (err x) = rest r
      by_answer rest panic = rest r
