-- ===== src/Queue/Service/Restart.antt =====
-- A restart of `TaskQueueService` (infra/storage/task-queue-service.ts) from the log that its own
-- calls wrote.
use memphis_v.Base.{
  ℕ, suc, ◌+◌, ◌≡◌, inl, inr, sym, ap, refl, ◌∙◌, Bool, true, Option, List, [], ◌∷◌, ◌++◌, map,
  length, leb, Bool-cases, Option-cases, Result, ok, err, Text,
}
use memphis_v.Queue.Wal
use memphis_v.Queue.Wal.{
  empty_wal, Bytes, Wal, WalError, WalRecord, encode_record, recover_and_read,
}
use memphis_v.Queue.Wal.Format.{encode_all, records_from, Sized}
use memphis_v.Queue.Wal.Append.{enqueue_effect, archives_stay, encode_all-append, recover_whole}
use memphis_v.Queue.Service
use memphis_v.Queue.Service.{
  Platform, Envelope, enqueue_op, finish_op, Task, TaskStatus, Service, Options, PendingTask,
  Fields, parse_envelope, status_text, opened, replay, replay_if, recovered_from, recover_records,
  start, enqueue, finish, Draw, set_pending, delete_pending, get_pending, logged, Error,
  note_enqueued, note_finished,
}
use memphis_v.Queue.Service.Json.{IsJson, parse-print, Readable, Readable-append}

-- A call of the service and what it draws.
pub data Op : Type 0 where
  submit : Task → Draw → Op
  settle : Text → TaskStatus → Option Service.Metadata → Draw → Op

unfoldable pub perform : Platform → Op → Service → Service
perform p (submit task d) s = (enqueue p task d s).1
perform p (settle id status metadata d) s = (finish p id status metadata d s).1

unfoldable pub run : Platform → List Op → Service → Service
run p [] s = s
run p (op ∷ ops) s = run p ops (perform p op s)

-- The pending tasks with the two totals.
abbrev pub Book : Type 0
Book = List PendingTask × (ℕ × ℕ)

abbrev pub contents : Service → Book
contents s = (s.pending, (s.total_enqueued, s.total_finished))

abbrev pub book_step : Envelope → Book → Book
book_step (enqueue_op id at task) b =
    (set_pending (record { task_id = id; enqueued_at = at; task = task }) b.0, (suc b.1.0, b.1.1))
book_step (finish_op id status at metadata) b = (delete_pending id b.0, (b.1.0, suc b.1.1))

abbrev pub book : List Envelope → Book → Book
book [] b = b
book (e ∷ es) b = book es (book_step e b)

book-append :
    (es : List Envelope) (e : Envelope) (b : Book) → book (es ++ e ∷ []) b ≡ book_step e (book es b)
book-append [] e b = refl
book-append (x ∷ es) e b = book-append es e (book_step x b)

map-append_one :
    (f : Envelope → Bytes) (es : List Envelope) (e : Envelope)
    → map f (es ++ e ∷ []) ≡ map f es ++ f e ∷ []
map-append_one f [] e = refl
map-append_one f (x ∷ es) e = ap (λ l. f x ∷ l) (map-append_one f es e)

replay-contents : (e : Envelope) (s : Service) → contents (replay e s) ≡ book_step e (contents s)
unfolding replay
replay-contents (enqueue_op id at task) s = refl
replay-contents (finish_op id status at metadata) s = refl

pub opened-contents : (o : Options) (w : Wal) → contents (opened o w) ≡ ([], (0, 0))
unfolding opened
opened-contents o w = refl

-- the envelope that a call writes if it writes one
abbrev pub envelope_of : Op → Envelope
envelope_of (submit task d) = enqueue_op d.uuid d.now task
envelope_of (settle id status metadata d) = finish_op id status d.now metadata

module _ (p : Platform) where
  abbrev pub print : Envelope → Bytes
  print e = Platform.json_print p e

  pub recover-contents :
      (es : List Envelope) (offset : ℕ) (s : Service)
      → Readable p es
      → contents (recover_records p (records_from offset (map print es)) s) ≡ book es (contents s)
  unfolding recover_records records_from
  recover-contents [] offset s known = refl
  recover-contents (e ∷ es) offset s known =
      ap
        (λ q. contents (
          recover_records p (records_from (offset + (length (print e) + 8)) (map print es))
            (replay_if q s)))
        (parse-print p e known.0)
      ∙ (recover-contents es (offset + (length (print e) + 8)) (replay e s) known.1
          ∙ ap (book es) (replay-contents e s))

  pub prints-Sized : (es : List Envelope) → Readable p es → Sized (map print es)
  unfolding Sized
  prints-Sized [] known = tt
  prints-Sized (e ∷ es) known = (IsJson.sized known.0, prints-Sized es known.1)

  -- The log holds the envelopes whose effects the service shows.
  unfoldable pub Synced : Service → Type 0
  Synced s =
      (es : List Envelope) × (Readable p es
        × ((s.wal.active ≡ encode_all (map print es)) × (contents s ≡ book es ([], (0, 0)))))

  recovered_from_lem :
      (o : Options) (x : Result WalError (List WalRecord) × Wal) (rs : List WalRecord)
      → x.0 ≡ ok rs
      → recovered_from p o x ≡ ok (recover_records p rs (opened o x.1))
  recovered_from_lem o (r, w) rs h = rw h refl

  pub restarted :
      (o : Options) (s : Service)
      → Synced s
      → (t : Service) × ((start p o true s.wal ≡ ok t) × (contents t ≡ contents s))
  unfolding start Synced
  restarted o s (es, (known, (here, shows))) =
      let again = recover_and_read true s.wal in
      let t = recover_records p (records_from 0 (map print es)) (opened o again.1) in
      (
        t,
        (
          recovered_from_lem o again (records_from 0 (map print es))
              (recover_whole (map print es) s.wal (prints-Sized es known) here),
          recover-contents es 0 (opened o again.1) known
              ∙ (ap (book es) (opened-contents o again.1) ∙ sym shows),
        ),
      )

  pub opened-Synced : (o : Options) (w : Wal) → w.active ≡ [] → Synced (opened o w)
  unfolding opened Synced encode_all
  opened-Synced o w empty = ([], (tt, (empty, refl)))

  -- The two ends of an append.
  logged_ok :
      {A : Type 0} (a : A) (f : Service → Service) (s : Service)
      (x : Result WalError WalRecord × Wal) (r : WalRecord)
      → x.0 ≡ ok r
      → (logged a f s x).1 ≡ f (record s { wal = x.1 })
  logged_ok a f s (y, w) r h = rw h refl

  logged_err :
      {A : Type 0} (a : A) (f : Service → Service) (s : Service)
      (x : Result WalError WalRecord × Wal) (e : WalError)
      → x.0 ≡ err e
      → (logged a f s x).1 ≡ record s { wal = x.1 }
  logged_err a f s (y, w) e h = rw h refl

  logged-Synced :
      {A : Type 0} (a : A) (f : Service → Service) (e : Envelope) (free : Bool) (s : Service)
      → ((w : Wal) → contents (f (record s { wal = w })) ≡ book_step e (contents s))
      → ((w : Wal) → (f (record s { wal = w })).wal ≡ w)
      → IsJson p e
      → (Wal.enqueue free (print e) s.wal).1.archives ≡ []
      → Synced s
      → Synced (logged a f s (Wal.enqueue free (print e) s.wal)).1
  unfolding Synced
  logged-Synced a f e free s does keeps json still (es, (known, (here, shows))) =
      let appending = Wal.enqueue free (print e) s.wal in
      elim (enqueue_effect free (print e) s.wal still) [
        | inl (r, (went, grew)) ↦ (
          es ++ e ∷ [],
          (
            Readable-append p es e known json,
            (
              ap (λ t. t.wal.active) (logged_ok a f s appending r went)
                  ∙ (ap (λ v. v.active) (keeps appending.1)
                      ∙ (grew
                          ∙ (ap (λ l. l ++ encode_record (print e)) here
                              ∙ (sym (encode_all-append (map print es) (print e))
                                  ∙ ap encode_all (sym (map-append_one print es e)))))),
              ap contents (logged_ok a f s appending r went)
                  ∙ (does appending.1
                      ∙ (ap (book_step e) shows ∙ sym (book-append es e ([], (0, 0))))),
            ),
          ),
        )
        | inr (e', (failed, same)) ↦ (
          es,
          (
            known,
            (
              ap (λ t. t.wal.active) (logged_err a f s appending e' failed) ∙ (same ∙ here),
              ap contents (logged_err a f s appending e' failed) ∙ shows,
            ),
          ),
        )
      ]

  logged_wal :
      {A : Type 0} (a : A) (f : Service → Service) (s : Service)
      (x : Result WalError WalRecord × Wal)
      → ((w : Wal) → (f (record s { wal = w })).wal ≡ w)
      → (logged a f s x).1.wal ≡ x.1
  logged_wal a f s (ok r, w) keeps = keeps w
  logged_wal a f s (err e, w) keeps = refl

  -- Synced as long as the log was not rotated.
  abbrev pub Follows : Service → Type 0
  Follows s = s.wal.archives ≡ [] → Synced s

  logged-Follows :
      {A : Type 0} (a : A) (f : Service → Service) (e : Envelope) (free : Bool) (s : Service)
      → ((w : Wal) → contents (f (record s { wal = w })) ≡ book_step e (contents s))
      → ((w : Wal) → (f (record s { wal = w })).wal ≡ w)
      → IsJson p e
      → Follows s
      → Follows (logged a f s (Wal.enqueue free (print e) s.wal)).1
  logged-Follows a f e free s does keeps json follows still =
      let still' : (Wal.enqueue free (print e) s.wal).1.archives ≡ [] =
        sym (ap (λ w. w.archives) (logged_wal a f s (Wal.enqueue free (print e) s.wal) keeps))
        ∙ still in
      logged-Synced a f e free s does keeps json still'
        (follows (archives_stay free (print e) s.wal still'))

  pub perform-Follows :
      (op : Op) (s : Service) → IsJson p (envelope_of op) → Follows s → Follows (perform p op s)
  unfolding perform enqueue finish
  perform-Follows (submit task d) s json follows =
      elim (Bool-cases (leb s.max_pending_tasks (length s.pending))) [
        | inl full ↦ rw (full, perform, enqueue) follows
        | inr room ↦
            rw (room, perform, enqueue)
              (logged-Follows (d.uuid, d.now) (note_enqueued task d) (enqueue_op d.uuid d.now task)
                d.free s (λ w. refl) (λ w. refl) json follows)
      ]
  perform-Follows (settle id status metadata d) s json follows =
      elim (Option-cases (get_pending id s.pending)) [
        | inl absent ↦ rw (absent, perform, finish) follows
        | inr (t, found) ↦
            rw (found, perform, finish)
              (logged-Follows true (note_finished id) (finish_op id status d.now metadata) d.free s
                (λ w. refl) (λ w. refl) json follows)
      ]
