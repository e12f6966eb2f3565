-- ===== src/FileTransfer/Transfer.antt =====
-- A whole transfer: what `accept_chunk` lets in, chunk after chunk, and what `finish` then knows.
use hbb_common.Common.{
  ℕ, ◌+◌, ◌≤◌, ◌≡◌, refl, sym, ap, ◌∙◌, arith, Bool, true, false, Option, List, [], ◌∷◌, ◌++◌,
  length, length-append, bytes_eq→eq, Outcome, ok, err, panic,
}
use hbb_common.FileTransfer.Types.{
  FileTransferMetadata, FileChunk, FileTransferError, FileTransferProgress, validate_metadata,
}
use hbb_common.FileTransfer.Receiver.{
  Sha256, FileResumeState, FileTransferReceiver, initial_hasher, start, accept_chunk, finish,
}

-- A hasher that is fed two pieces has the state of one that is fed both at once.
pub record Sha256Laws (sha : Sha256) : Type 0 where
  pub update_nil : (h : sha.Hasher) → sha.update h [] ≡ h
  pub update_append :
      (h : sha.Hasher) (a b : List ℕ) → sha.update (sha.update h a) b ≡ sha.update h (a ++ b)

module _ (sha : Sha256) where
  -- The receiver after a sequence of chunks, of which those that it refuses change nothing, and the
  -- data of those that it accepts.
  abbrev pub take_in :
      FileTransferReceiver sha
      → FileChunk
      → Outcome FileTransferError (FileTransferProgress × FileTransferReceiver sha)
      → (FileTransferReceiver sha → FileTransferReceiver sha × List ℕ)
      → FileTransferReceiver sha × List ℕ
  take_in r c (ok accepted) rest = ((rest accepted.1).0, c.data_bytes ++ (rest accepted.1).1)
  take_in r c (err e) rest = rest r
  take_in r c panic rest = rest r

  unfoldable pub receive_all :
      FileTransferReceiver sha → List FileChunk → FileTransferReceiver sha × List ℕ
  receive_all r [] = (r, [])
  receive_all r (c ∷ cs) = take_in r c (accept_chunk sha r c) (λ q. receive_all q cs)

  -- What holds between a receiver and the one it has become when it has accepted some data.
  pub record Fed (r s : FileTransferReceiver sha) (bytes : List ℕ) : Type 0 where
    pub same_metadata : s.metadata ≡ r.metadata
    pub moved : s.expected_offset ≡ r.expected_offset + length bytes
    pub within_file :
        r.expected_offset ≤ r.metadata.file_size → s.expected_offset ≤ s.metadata.file_size
    pub hashed : s.hasher ≡ sha.update r.hasher bytes
    pub same_cancelled : s.is_cancelled ≡ r.is_cancelled

  accept_chunk-Fed :
      (r : FileTransferReceiver sha) (c : FileChunk)
      (a : FileTransferProgress × FileTransferReceiver sha)
      → accept_chunk sha r c ≡ ok a
      → Fed r a.1 c.data_bytes
  unfolding accept_chunk
  accept_chunk-Fed r c a h = record {
    same_metadata = ground arith;
    moved = ground arith;
    within_file = ground arith;
    hashed = ground arith;
    same_cancelled = ground arith;
  }

  module _ (laws : Sha256Laws sha) where
    Fed-refl : (r : FileTransferReceiver sha) → Fed r r []
    Fed-refl r = record {
      same_metadata = refl;
      moved = omega arith;
      within_file = λ h. h;
      hashed = sym (laws.update_nil r.hasher);
      same_cancelled = refl;
    }

    Fed-trans :
        (r s t : FileTransferReceiver sha) (a b : List ℕ) → Fed r s a → Fed s t b → Fed r t (a ++ b)
    Fed-trans r s t a b f g = record {
      same_metadata = g.same_metadata ∙ f.same_metadata;
      moved = omega (arith, f.moved, g.moved, length-append a b);
      within_file = λ h. g.within_file (f.within_file h);
      hashed =
          g.hashed
          ∙ ap (λ (h : sha.Hasher). sha.update h b) f.hashed
          ∙ laws.update_append r.hasher a b;
      same_cancelled = g.same_cancelled ∙ f.same_cancelled;
    }

    pub receive_all-Fed :
        (r : FileTransferReceiver sha) (cs : List FileChunk)
        → Fed r (receive_all r cs).0 (receive_all r cs).1
    unfolding receive_all
    receive_all-Fed r [] = Fed-refl r
    receive_all-Fed r (c ∷ cs) = go (λ q. receive_all-Fed q cs) (accept_chunk sha r c) refl
      where
        go :
            ((q : FileTransferReceiver sha) → Fed q (receive_all q cs).0 (receive_all q cs).1)
            → (o : Outcome FileTransferError (FileTransferProgress × FileTransferReceiver sha))
            → accept_chunk sha r c ≡ o
            → Fed r
                (take_in r c o (λ q. receive_all q cs)).0
                (take_in r c o (λ q. receive_all q cs)).1
        go rest (ok a) e =
            Fed-trans r a.1 (receive_all a.1 cs).0 c.data_bytes (receive_all a.1 cs).1
              (accept_chunk-Fed r c a e) (rest a.1)
        go rest (err x) e = rest r
        go rest panic e = rest r

-- What `start` makes of its arguments.
module _ (sha : Sha256) (metadata : FileTransferMetadata) (max_file_bytes : ℕ)
    (resume_state : Option (FileResumeState sha)) (r : FileTransferReceiver sha) where
  pub record Started : Type 0 where
    pub valid : validate_metadata metadata max_file_bytes ≡ ok tt
    pub kept : r.metadata ≡ metadata
    pub at_offset : r.expected_offset ≡ metadata.resume_offset
    pub not_cancelled : r.is_cancelled ≡ false
    pub given_hasher : initial_hasher sha metadata resume_state ≡ ok r.hasher

  pub start-Started :
      (user_permitted : Bool)
      → start sha metadata max_file_bytes user_permitted resume_state ≡ ok r
      → (user_permitted ≡ true) × Started
  unfolding start
  start-Started user_permitted h = (
    ground arith,
    record {
      valid = ground arith;
      kept = ground arith;
      at_offset = ground arith;
      not_cancelled = ground arith;
      given_hasher = ground arith;
    },
  )

pub finish-eq-ok :
    (sha : Sha256) (r : FileTransferReceiver sha) (m : FileTransferMetadata)
    → finish sha r ≡ ok m
    → (m ≡ r.metadata)
      × (r.expected_offset ≡ r.metadata.file_size)
      × (sha.finalize r.hasher ≡ r.metadata.sha256)
unfolding finish
finish-eq-ok sha r m h = (
  ground arith,
  ground arith,
  ground (arith, bytes_eq→eq (sha.finalize r.hasher) r.metadata.sha256),
)
