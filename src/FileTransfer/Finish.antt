-- ===== src/FileTransfer/Finish.antt =====
-- `finish`: a transfer that finishes is complete and has its hash, and a complete one finishes.
use hbb_common.Common.{
  ℕ, ◌+◌, ◌*◌, ◌^◌, ◌<◌, ◌≤◌, ◌≡◌, refl, sym, ap, ap₂, subst, ◌∙◌, arith, Bool, true, false, Option,
  List, [], ◌∷◌, ◌++◌, length, length-append, All, bytes_eq_refl, ok, err,
}
use hbb_common.FileTransfer.Types.{FileTransferMetadata, FileChunk, cancelled, validate_metadata}
use hbb_common.FileTransfer.Receiver.{
  Sha256, FileResumeState, FileTransferReceiver, initial_hasher, start, accept_chunk, cancel,
  finish, progress,
}
use hbb_common.FileTransfer.Placed.{Placed, data_of, accepted, accepted-Placed, data_of-accepted}
use hbb_common.FileTransfer.Transfer.{
  Sha256Laws, receive_all, receive_all-Fed, Started, start-Started, finish-eq-ok,
}

-- A transfer that finishes has the whole file: when `start` gave a receiver, the receiver was given any
-- sequence of chunks, good or bad, and `finish` then succeeds, the user had permitted the transfer,
-- the metadata passes its checks and is what `finish` returns. The chunks that were accepted are all
-- of this transfer, each of 1 byte to 256 KiB, and follow each other in the file without a gap or
-- an overlap: the first is at the resume offset and each other one where the data of those before
-- it ends. Their data, joined, reaches from the resume offset to the end of the file, and the hasher
-- that `start` chose, fed that data, gives the declared SHA-256. The hasher is assumed to be fed
-- piecewise.
pub finish-receive_all :
    (sha : Sha256) (laws : Sha256Laws sha) (metadata : FileTransferMetadata) (max_file_bytes : ℕ)
    (user_permitted : Bool) (resume_state : Option (FileResumeState sha))
    (r : FileTransferReceiver sha) (chunks : List FileChunk) (m : FileTransferMetadata)
    → start sha metadata max_file_bytes user_permitted resume_state ≡ ok r
    → finish sha (receive_all sha r chunks).0 ≡ ok m
    → (user_permitted ≡ true)
      × (validate_metadata metadata max_file_bytes ≡ ok tt)
      × (m ≡ metadata)
      × Placed metadata.transfer_id metadata.resume_offset (accepted sha r chunks)
      × (data_of (accepted sha r chunks) ≡ (receive_all sha r chunks).1)
      × (metadata.resume_offset + length (receive_all sha r chunks).1 ≡ metadata.file_size)
      × (initial_hasher sha metadata resume_state ≡ ok r.hasher)
      × (sha.finalize (sha.update r.hasher (receive_all sha r chunks).1) ≡ metadata.sha256)
finish-receive_all sha laws metadata max_file_bytes user_permitted resume_state r chunks m s f =
    let (permitted, started) =
      start-Started sha metadata max_file_bytes resume_state r user_permitted s in
    let fed = receive_all-Fed sha laws r chunks in
    let (same, whole, digest) = finish-eq-ok sha (receive_all sha r chunks).0 m f in
    let all_metadata : (receive_all sha r chunks).0.metadata ≡ metadata =
      fed.same_metadata ∙ started.kept in
    (
      permitted,
      started.valid,
      same ∙ all_metadata,
      subst (λ (n : ℕ). Placed metadata.transfer_id n (accepted sha r chunks)) started.at_offset
          (subst
            (λ (x : FileTransferMetadata).
              Placed x.transfer_id r.expected_offset (accepted sha r chunks))
            started.kept (accepted-Placed sha r chunks)),
      data_of-accepted sha r chunks,
      omega (
        arith,
        fed.moved,
        started.at_offset,
        whole,
        ap (λ (x : FileTransferMetadata). x.file_size) all_metadata,
      ),
      started.given_hasher,
      sym (ap sha.finalize fed.hashed)
          ∙ digest
          ∙ ap (λ (x : FileTransferMetadata). x.sha256) all_metadata,
    )

-- The chunks of a sender: pieces of a file at their offsets.
unfoldable pub split : List ℕ → ℕ → List (List ℕ) → List FileChunk
split transfer_id offset [] = []
split transfer_id offset (piece ∷ pieces) =
    record { transfer_id = transfer_id; offset = offset; data_bytes = piece }
    ∷ split transfer_id (offset + length piece) pieces

unfoldable pub concat : List (List ℕ) → List ℕ
concat [] = []
concat (piece ∷ pieces) = piece ++ concat pieces

abbrev pub IsPiece : List ℕ → Type 0
IsPiece piece = (0 < length piece) × (length piece ≤ 256 * 1024)

module _ (sha : Sha256) where
  -- The receiver after a chunk that it accepts.
  abbrev fed : FileTransferReceiver sha → List ℕ → FileTransferReceiver sha
  fed r piece = record r {
    hasher = sha.update r.hasher piece;
    expected_offset = r.expected_offset + length piece;
  }

  accept_chunk-piece :
      (r : FileTransferReceiver sha) (piece : List ℕ)
      → r.is_cancelled ≡ false
      → r.metadata.file_size < 2 ^ 64
      → IsPiece piece
      → r.expected_offset + length piece ≤ r.metadata.file_size
      → accept_chunk sha r (record {
        transfer_id = r.metadata.transfer_id;
        offset = r.expected_offset;
        data_bytes = piece;
      })
        ≡ ok (progress sha (fed r piece), fed r piece)
  unfolding accept_chunk
  accept_chunk-piece r piece c s p h = rw (c, bytes_eq_refl r.metadata.transfer_id) (ground arith)

  -- Every piece is accepted.
  receive_all-split :
      (r : FileTransferReceiver sha) (pieces : List (List ℕ))
      → r.is_cancelled ≡ false
      → r.metadata.file_size < 2 ^ 64
      → All IsPiece pieces
      → r.expected_offset + length (concat pieces) ≤ r.metadata.file_size
      → (receive_all sha r (split r.metadata.transfer_id r.expected_offset pieces)).1
        ≡ concat pieces
  unfolding receive_all split concat
  receive_all-split r [] c s p h = refl
  receive_all-split r (piece ∷ pieces) c s p h =
      let room = length-append piece (concat pieces) in
      rw (receive_all, accept_chunk-piece r piece c s p.0 (omega (arith, room)))
        (ap (λ (bs : List ℕ). piece ++ bs)
          (receive_all-split (fed r piece) pieces c s p.1 (omega (arith, room))))

finish_lem :
    (sha : Sha256) (r : FileTransferReceiver sha)
    → r.is_cancelled ≡ false
    → r.expected_offset ≡ r.metadata.file_size
    → sha.finalize r.hasher ≡ r.metadata.sha256
    → finish sha r ≡ ok r.metadata
unfolding finish
finish_lem sha r c e h = rw (c, e, h, bytes_eq_refl r.metadata.sha256) (ground arith)

finish-pieces :
    (sha : Sha256) (laws : Sha256Laws sha) (r : FileTransferReceiver sha) (pieces : List (List ℕ))
    → r.is_cancelled ≡ false
    → r.metadata.file_size < 2 ^ 64
    → All IsPiece pieces
    → r.expected_offset + length (concat pieces) ≡ r.metadata.file_size
    → sha.finalize (sha.update r.hasher (concat pieces)) ≡ r.metadata.sha256
    → let s = receive_all sha r (split r.metadata.transfer_id r.expected_offset pieces) in
      (s.1 ≡ concat pieces) × (finish sha s.0 ≡ ok r.metadata)
finish-pieces sha laws r pieces c size p whole digest =
    let chunks = split r.metadata.transfer_id r.expected_offset pieces in
    let s = receive_all sha r chunks in
    let fed_all = receive_all-Fed sha laws r chunks in
    let all_in = receive_all-split sha r pieces c size p (omega (arith, whole)) in
    let kept : s.0.metadata ≡ r.metadata = fed_all.same_metadata in
    (
      all_in,
      finish_lem sha s.0 (fed_all.same_cancelled ∙ c)
            (fed_all.moved
              ∙ ap (λ (bs : List ℕ). r.expected_offset + length bs) all_in
              ∙ whole
              ∙ ap (λ (x : FileTransferMetadata). x.file_size) (sym kept))
            (ap sha.finalize (fed_all.hashed ∙ ap (λ (bs : List ℕ). sha.update r.hasher bs) all_in)
              ∙ digest
              ∙ ap (λ (x : FileTransferMetadata). x.sha256) (sym kept))
          ∙ ap ok kept,
    )

-- A file that is sent arrives: when `start` gave a receiver for metadata whose file size is a `u64`,
-- then pieces of 1 to 256 KiB that are together as long as the rest of the file and have the declared
-- SHA-256, sent in order at their offsets, are all accepted and `finish` returns the metadata.
-- The hasher is assumed to be fed piecewise.
pub finish-split :
    (sha : Sha256) (laws : Sha256Laws sha) (metadata : FileTransferMetadata) (max_file_bytes : ℕ)
    (resume_state : Option (FileResumeState sha)) (r : FileTransferReceiver sha)
    (pieces : List (List ℕ))
    → start sha metadata max_file_bytes true resume_state ≡ ok r
    → metadata.file_size < 2 ^ 64
    → All IsPiece pieces
    → metadata.resume_offset + length (concat pieces) ≡ metadata.file_size
    → sha.finalize (sha.update r.hasher (concat pieces)) ≡ metadata.sha256
    → let s = receive_all sha r (split metadata.transfer_id metadata.resume_offset pieces) in
      (s.1 ≡ concat pieces) × (finish sha s.0 ≡ ok metadata)
finish-split sha laws metadata max_file_bytes resume_state r pieces s size p whole digest =
    let started = (start-Started sha metadata max_file_bytes resume_state r true s).1 in
    let same_chunks : split r.metadata.transfer_id r.expected_offset pieces
        ≡ split metadata.transfer_id metadata.resume_offset pieces =
      ap₂ (λ (id : List ℕ) (at : ℕ). split id at pieces)
        (ap (λ (x : FileTransferMetadata). x.transfer_id) started.kept) started.at_offset in
    let arrived =
      finish-pieces sha laws r pieces started.not_cancelled
        (subst (λ (x : FileTransferMetadata). x.file_size < 2 ^ 64) (sym started.kept) size) p
        (started_whole started)
        (digest ∙ ap (λ (x : FileTransferMetadata). x.sha256) (sym started.kept)) in
    subst
      (λ (cs : List FileChunk).
        ((receive_all sha r cs).1 ≡ concat pieces)
        × (finish sha (receive_all sha r cs).0 ≡ ok metadata))
      same_chunks (arrived.0, arrived.1 ∙ ap ok started.kept)
  where
    started_whole :
        Started sha metadata max_file_bytes resume_state r
        → r.expected_offset + length (concat pieces) ≡ r.metadata.file_size
    started_whole started = omega (
      arith,
      started.at_offset,
      whole,
      ap (λ (x : FileTransferMetadata). x.file_size) started.kept,
    )

cancelled_chunk :
    (sha : Sha256) (r : FileTransferReceiver sha) (c : FileChunk)
    → r.is_cancelled ≡ true
    → accept_chunk sha r c ≡ err cancelled
unfolding accept_chunk
cancelled_chunk sha r c h = rw h refl

cancelled_chunks :
    (sha : Sha256) (r : FileTransferReceiver sha) (cs : List FileChunk)
    → r.is_cancelled ≡ true
    → receive_all sha r cs ≡ (r, [])
unfolding receive_all
cancelled_chunks sha r [] h = refl
cancelled_chunks sha r (c ∷ cs) h =
    rw (receive_all, cancelled_chunk sha r c h) (cancelled_chunks sha r cs h)

-- A cancelled transfer stays cancelled: whatever chunks come after `cancel`, none is accepted, the
-- receiver does not change, and `finish` refuses.
pub finish-cancel :
    (sha : Sha256) (r : FileTransferReceiver sha) (chunks : List FileChunk)
    → (receive_all sha (cancel sha r) chunks ≡ (cancel sha r, []))
      × (finish sha (receive_all sha (cancel sha r) chunks).0 ≡ err cancelled)
unfolding cancel finish
finish-cancel sha r chunks =
    rw (cancelled_chunks sha (record r { is_cancelled = true }) chunks refl) (refl, refl)
