-- ===== src/Push/Broadcast.antt =====
-- The fan-out of a published notice: backend/internal/service/push_notice_broadcast.go, on the
-- recipients that backend/internal/repository/push_notice_broadcast.go lists by pages.
use daeil_scholar.Prelude.{
  ℕ, zero, suc, Bool, not, ◌||◌, Option, none, some, List, [], ◌∷◌, ◌++◌, keep, take, ltb, ◌==◌,
  if◌then◌else◌,
}

abbrev pub notice_broadcast_page_size : ℕ
notice_broadcast_page_size = 200

abbrev pub notice_page_retry_attempts : ℕ
notice_page_retry_attempts = 4

-- The members whom the query selects, in order of their numbers, which are positive.
abbrev pub list_notice_recipient_seqs : List ℕ → ℕ → ℕ → List ℕ
list_notice_recipient_seqs members after limit =
    if limit == 0 then [] else take limit (keep (ltb after) members)

-- What happens meanwhile, by the number of reads and of items so far: which reads fail, whether
-- shutdown begins during a wait, and which items the queue takes before shutdown is seen.
pub record World : Type 0 where
  pub read_fails : ℕ → Bool
  pub closes : ℕ → Bool
  pub accepts : ℕ → Bool

pub record FanOut : Type 0 where
  pub after : ℕ
  pub reads : ℕ
  pub items : ℕ
  pub dropped : ℕ
  pub queue : List ℕ

-- One page, with the number of reads that it took; none after the last attempt, or at shutdown.
unfoldable pub list_page : World → List ℕ → ℕ → ℕ → ℕ → Option (List ℕ) × ℕ
list_page w members after zero reads = (none, reads)
list_page w members after (suc left) reads =
    let again = list_page w members after left (suc reads) in
    if not (w.read_fails reads)
    then (some (list_notice_recipient_seqs members after notice_broadcast_page_size), suc reads)
    else if left == 0 || w.closes reads
    then (none, suc reads)
    else again

abbrev pub enqueue_notice : World → ℕ → FanOut → FanOut
enqueue_notice w user s =
    if w.accepts s.items
    then record s { items = suc s.items; queue = s.queue ++ user ∷ [] }
    else record s { items = suc s.items; dropped = suc s.dropped }

abbrev pub move_cursor : ℕ → FanOut → FanOut
move_cursor user s = record s { after = if ltb s.after user then user else s.after }

unfoldable pub enqueue_page : World → List ℕ → FanOut → FanOut
enqueue_page w [] s = s
enqueue_page w (user ∷ users) s = enqueue_page w users (enqueue_notice w user (move_cursor user s))

-- A page that is read, or the end of the loop.
abbrev pub take_page : World → Option (List ℕ) → FanOut → (FanOut → Option FanOut) → Option FanOut
take_page w none s go = some s
take_page w (some []) s go = some s
take_page w (some (user ∷ users)) s go =
    let s' = enqueue_page w (user ∷ users) s in if ltb 0 s'.dropped then some s' else go s'

-- The loop over the pages; none is fuel that ran out.
unfoldable pub fan_out : World → List ℕ → ℕ → FanOut → Option FanOut
unfolding list_page enqueue_page
fan_out w members zero s = none
fan_out w members (suc fuel) s =
    let (page, reads) = list_page w members s.after notice_page_retry_attempts s.reads in
    take_page w page (record s { reads = reads }) (fan_out w members fuel)

abbrev pub not_started : FanOut
not_started = record { after = 0; reads = 0; items = 0; dropped = 0; queue = [] }
