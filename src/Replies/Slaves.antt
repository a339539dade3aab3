-- ===== src/Replies/Slaves.antt =====
-- What a host learns of the slaves from RUNNING_STATE.
use nowde.Prelude.{ℕ, suc, ◌≡◌, refl, ap, ◌∙◌, List, [], ◌∷◌, map, length, drop, All}
use nowde.Codec.{encode7bit, decode7bit}
use nowde.Codec.RoundTrip.{IsByte, decode7bit-encode7bit}
use nowde.Tables.{ReceiverEntry}
use nowde.Node.{World}
use nowde.Replies.{
  receiver_data, chunk_body, chunks_from, chunks_of, running_state_bodies, snapshot,
}

-- The slave that a host reads in a chunk: after ten bytes, seven-bit data.
abbrev pub slave_of : List ℕ → List ℕ
slave_of body = decode7bit (drop 10 body)

-- All that a table entry holds fits in bytes.
abbrev pub HoldsBytes : ℕ → ReceiverEntry → Type 0
HoldsBytes now e = All IsByte (receiver_data now e)

drop-chunk_body :
    (w : World) (total i count : ℕ) (e : ReceiverEntry)
    → drop 10 (chunk_body w total i count (e ∷ [])) ≡ encode7bit (receiver_data w.now e)
unfolding chunk_body encode7bit
drop-chunk_body w total i count e = refl

slave_of-chunk_body :
    (w : World) (total i count : ℕ) (e : ReceiverEntry)
    → HoldsBytes w.now e
    → slave_of (chunk_body w total i count (e ∷ [])) ≡ receiver_data w.now e
slave_of-chunk_body w total i count e h =
    ap decode7bit (drop-chunk_body w total i count e)
    ∙ decode7bit-encode7bit (receiver_data w.now e) h

chunks_from-slaves :
    (w : World) (total count i : ℕ) (t : List ReceiverEntry)
    → All (HoldsBytes w.now) t
    → map slave_of (chunks_from w total count i t) ≡ map (receiver_data w.now) t
unfolding chunks_from
chunks_from-slaves w total count i [] h = refl
chunks_from-slaves w total count i (e ∷ t) h =
    ap (λ x. x ∷ map slave_of (chunks_from w total count (suc i) t))
      (slave_of-chunk_body w total i count e h.0)
    ∙ ap (λ u. receiver_data w.now e ∷ u) (chunks_from-slaves w total count (suc i) t h.1)

-- What the host reads off the chunks: each slave of the snapshot, or a chunk without one.
abbrev pub told : ℕ → List ReceiverEntry → List (List ℕ)
told now [] = [] ∷ []
told now (e ∷ t) = map (receiver_data now) (e ∷ t)

chunks_of-slaves :
    (w : World) (t : List ReceiverEntry)
    → All (HoldsBytes w.now) t
    → map slave_of (chunks_of w t) ≡ told w.now t
unfolding chunks_of chunk_body encode7bit decode7bit
chunks_of-slaves w [] h = refl
chunks_of-slaves w (e ∷ t) h = chunks_from-slaves w (length (e ∷ t)) (length (e ∷ t)) 0 (e ∷ t) h

-- If all that the connected entries hold fits in bytes, a host reads every connected slave once from
-- the chunks of RUNNING_STATE, in the order of the table; with none connected, one chunk that lists
-- no slave.
pub running_state_slaves :
    (w : World) (table : List ReceiverEntry)
    → All (HoldsBytes w.now) (snapshot table)
    → map slave_of (running_state_bodies w table) ≡ told w.now (snapshot table)
unfolding running_state_bodies
running_state_slaves w table h = chunks_of-slaves w (snapshot table) h
