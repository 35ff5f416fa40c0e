-- ===== src/Log/Along.antt =====
-- What holds of a disk before and after each write of a list, so at every point where a crash can
-- come between them.
use xv6_learn.Common.{ℕ, zero, suc, List, [], ◌∷◌, ◌++◌, update, take}
use xv6_learn.Log.{Block, Disk, replay}

abbrev pub Along : (Disk → Type 0) → List (ℕ × Block) → Disk → Type 0
Along P [] d = P d
Along P ((b, x) ∷ ws) d = P d × Along P ws (update d b x)

pub Along-append :
    (P : Disk → Type 0) (ws us : List (ℕ × Block)) (d : Disk)
    → Along P ws d
    → Along P us (replay ws d)
    → Along P (ws ++ us) d
unfolding replay
Along-append P [] us d h g = g
Along-append P ((b, x) ∷ ws) us d h g = (h.0, Along-append P ws us (update d b x) h.1 g)

pub Along-take :
    (P : Disk → Type 0) (ws : List (ℕ × Block)) (k : ℕ) (d : Disk)
    → Along P ws d
    → P (replay (take k ws) d)
unfolding replay
Along-take P [] zero d h = h
Along-take P [] (suc k) d h = h
Along-take P ((b, x) ∷ ws) zero d h = h.0
Along-take P ((b, x) ∷ ws) (suc k) d h = Along-take P ws k (update d b x) h.1
