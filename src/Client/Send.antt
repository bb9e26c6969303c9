-- ===== src/Client/Send.antt =====
-- src/client.c: the send queue of one connection, `client_send`, and labeled responses,
-- `client_label_begin` and `client_label_end`; src/proto.c: `irc_time_tag_insert`. The time's text is
-- an argument, and so are the answers of realloc, by the size asked for.
pub mod Queue
use sekur_ircd.Base.{
  ℕ, zero, suc, ◌+◌, ◌-◌, ◌*◌, Bool, true, false, not, ◌&&◌, ◌||◌, List, [], ◌∷◌, ◌++◌, Option,
  none, some, ltb, leb, ◌==◌, if◌then◌else◌, ◌>>=◌, Bytes, length, take, drop,
}
use sekur_ircd.Cstring.{codes, split_at}
use sekur_ircd.Proto.Build.{irc_build}
use sekur_ircd.Protection.Text.{begins, is_empty}

-- SENDQ_MAX
abbrev pub sendq_default : ℕ
sendq_default = 1048576

-- What `client_send` reads and writes of `client_t`. The bytes sbuf[0..sbuf_len) are `sbuf`, the first
-- `sbuf_off` of them are written already; `dirty` says that the client stands in the queue for output; the captured lines are `label_buf`, in their order.
pub record Out : Type 0 where
  pub quitting : Bool
  pub quit_reason : Bytes
  pub server_time : Bool
  pub dirty : Bool
  pub sendq_max : ℕ
  pub sbuf : Bytes
  pub sbuf_off : ℕ
  pub sbuf_cap : ℕ
  pub label : Bytes
  pub label_capture : Bool
  pub label_defer : Bool
  pub label_buf : List Bytes
  pub label_len : ℕ
  pub label_cap : ℕ
  pub label_lines : ℕ

-- `client_sendq_len`, as the bytes themselves.
abbrev pub pending : Out → Bytes
pending o = drop o.sbuf_off o.sbuf

-- A tag `time`, at the start of a text.
abbrev pub time_end : Bytes → Bool
time_end [] = true
time_end (c ∷ s) = c == b'=' || c == b';'

unfoldable pub time_here : Bytes → Bool
unfolding begins
time_here s = begins (codes "time") s && time_end (drop 4 s)

-- The loop over the tags; `start` says that a tag begins here.
unfoldable pub has_time : Bool → Bytes → Bool
unfolding time_here
has_time start [] = false
has_time start (c ∷ s) = start && time_here (c ∷ s) || has_time (c == b';') s

-- The tag, and where it goes.
unfoldable pub irc_time_tag_insert : Bytes → Bytes → Bytes × ℕ
unfolding has_time split_at
irc_time_tag_insert ts [] = (codes "@time=" ++ ts ++ (b' ' ∷ []), 0)
irc_time_tag_insert ts (c ∷ s) =
    if not (c == b'@') then (codes "@time=" ++ ts ++ (b' ' ∷ []), 0) else elim (split_at b' ' s) [
      | none ↦ ([], 0)
      | some (tags, rest) ↦
          if has_time true tags then ([], 0) else (codes ";time=" ++ ts, suc (length tags))
    ]

abbrev pub no_tag : Bytes × ℕ
no_tag = ([], 0)

unfoldable pub time_tag : Out → Bytes → Bytes → Bytes × ℕ
unfolding irc_time_tag_insert
time_tag o ts line = if o.server_time then irc_time_tag_insert ts line else no_tag

-- The line as it is queued, with its tag and its CRLF.
unfoldable pub encoded : Bytes × ℕ → Bytes → Bytes
encoded (tag, at) line = take at line ++ (tag ++ (drop at line ++ (13 ∷ 10 ∷ [])))

-- `while (cap < need) cap *= 2;`
unfoldable pub double_until : ℕ → ℕ → ℕ → ℕ
double_until zero cap need = cap
double_until (suc fuel) cap need =
    let more = double_until fuel (cap * 2) need in if ltb cap need then more else cap

abbrev pub mark_quit : Out → Out
mark_quit o = record o { quitting = true }

-- The bytes that are sent already make room first.
unfoldable pub reclaim : Out → ℕ → Out
reclaim o total =
    if ltb o.sbuf_cap (length o.sbuf + total)
    then record o { sbuf = drop o.sbuf_off o.sbuf; sbuf_off = 0 }
    else o

-- Room for `total` more bytes, or nothing where realloc refuses.
unfoldable pub make_room : (ℕ → Bool) → Out → ℕ → Option Out
unfolding reclaim double_until
make_room realloc o total =
    let r = reclaim o total in
    if ltb r.sbuf_cap (length r.sbuf + total)
    then (let cap = double_until (length r.sbuf + total) (r.sbuf_cap * 2) (length r.sbuf + total) in
        if realloc cap then some (record r { sbuf_cap = cap }) else none)
    else some r

abbrev pub sendq_limit : Out → ℕ
sendq_limit o = if o.sendq_max == 0 then sendq_default else o.sendq_max

unfoldable pub put_line : (ℕ → Bool) → Out → Bytes → Out
unfolding reclaim make_room
put_line realloc o bytes =
    if ltb (sendq_limit o) (length (pending o) + length bytes)
    then record o { quitting = true; quit_reason = codes "SendQ exceeded" }
    else elim (make_room realloc o (length bytes)) [
      | none ↦ mark_quit (reclaim o (length bytes))
      | some r ↦ record r {
        sbuf = r.sbuf ++ bytes;
        dirty = o.dirty || is_empty (pending o) && not o.quitting;
      }
    ]

-- `client_send` for a socket, with nothing captured.
unfoldable pub send_now : (ℕ → Bool) → Bytes → Out → Bytes → Out
unfolding put_line encoded time_tag
send_now realloc ts o line =
    if o.quitting then o else put_line realloc o (encoded (time_tag o ts line) line)

unfoldable pub send_all : (ℕ → Bool) → Bytes → Out → List Bytes → Out
unfolding send_now
send_all realloc ts o [] = o
send_all realloc ts o (l ∷ ls) = send_all realloc ts (send_now realloc ts o l) ls

-- `client_buf_shrink` of the captured lines, which are gone: above 8192 bytes the buffer is freed.
abbrev pub drop_labels : Out → Out
drop_labels o = record o {
  label_buf = [];
  label_len = 0;
  label_lines = 0;
  label_cap = if leb o.label_cap 8192 then o.label_cap else 0;
}

abbrev pub label_max : ℕ
label_max = 65536

abbrev pub label_start : ℕ → ℕ
label_start cap = if cap == 0 then 1024 else cap

-- One more captured line.
unfoldable pub hold : (ℕ → Bool) → Out → Bytes → Out
unfolding double_until
hold realloc o line =
    let need = o.label_len + length line + 1 in
    let cap = double_until need (label_start o.label_cap) need in
    let held = record o {
      label_buf = o.label_buf ++ (line ∷ []);
      label_len = need;
      label_lines = o.label_lines + 1;
    } in
    if ltb o.label_cap need
    then (if realloc cap then record held { label_cap = cap } else mark_quit o)
    else held

-- Too much for one label: what is held goes out without it.
unfoldable pub release : (ℕ → Bool) → Bytes → Out → Out
unfolding send_all
release realloc ts o =
    drop_labels (send_all realloc ts (record o { label_capture = false }) o.label_buf)

unfoldable pub client_send : (ℕ → Bool) → Bytes → Out → Bytes → Out
unfolding send_now hold release
client_send realloc ts o line =
    if o.quitting
    then o
    else if not o.label_capture
    then send_now realloc ts o line
    else if ltb label_max (o.label_len + length line + 1)
    then put_line realloc (release realloc ts o) (encoded (time_tag o ts line) line)
    else hold realloc o line

unfoldable pub client_label_begin : Out → Bytes → Out
client_label_begin o label = record o {
  label = take 71 label;
  label_capture = true;
  label_buf = [];
  label_len = 0;
  label_lines = 0;
}

-- One more tag in front of the others, or a tag section.
unfoldable pub line_add_tag : Bytes → ℕ → Bytes → Bytes
line_add_tag tag outsz [] = take (outsz - 1) (b'@' ∷ (tag ++ (b' ' ∷ [])))
line_add_tag tag outsz (c ∷ line) =
    take (outsz - 1)
      (if c == b'@' then b'@' ∷ (tag ++ (b';' ∷ line)) else b'@' ∷ (tag ++ (b' ' ∷ c ∷ line)))

-- strstr
unfoldable pub contains : Bytes → Bytes → Bool
unfolding begins
contains needle [] = begins needle []
contains needle (c ∷ s) = begins needle (c ∷ s) || contains needle s

unfoldable pub has_batch_tag : Bytes → Bool
unfolding begins contains split_at
has_batch_tag [] = false
has_batch_tag (c ∷ s) =
    if not (c == b'@')
    then false
    else begins (codes "batch=") s || elim (split_at b' ' s) [
      | none ↦ false
      | some (tags, rest) ↦ contains (codes ";batch=") tags
    ]

-- The rendered `label=...`: what stands between the `@` and the first space.
unfoldable pub label_tag : Bytes → Option Bytes
unfolding irc_build split_at
label_tag label = do
  line ← irc_build 200 ((codes "label", label) ∷ []) none (codes "X") [] none
  (tag, rest) ← split_at b' ' line
  some (drop 1 tag)

-- The lines of a batch: those of a batch of their own keep their tag.
unfoldable pub in_batch : Bytes → List Bytes → List Bytes
unfolding has_batch_tag line_add_tag
in_batch tagb [] = []
in_batch tagb (l ∷ ls) =
    (if has_batch_tag l then l else line_add_tag tagb 1700 l) ∷ in_batch tagb ls

-- What `client_label_end` sends: an ACK, the one line, or a batch named `bid`.
unfoldable pub labeled : Bytes → Bytes → Bytes → List Bytes → Option (List Bytes)
unfolding label_tag irc_build line_add_tag in_batch
labeled srvname bid label [] = do
  tag ← label_tag label
  bare ← irc_build 200 [] (some srvname) (codes "ACK") [] none
  some (line_add_tag tag 1700 bare ∷ [])
labeled srvname bid label (l ∷ []) = do tag ← label_tag label; some (line_add_tag tag 1700 l ∷ [])
labeled srvname bid label (l ∷ m ∷ ls) = do
  tag ← label_tag label
  start ←
      irc_build 300 [] (some srvname) (codes "BATCH") ((b'+' ∷ bid) ∷ codes "labeled-response" ∷ [])
        none
  stop ← irc_build 300 [] (some srvname) (codes "BATCH") ((b'-' ∷ bid) ∷ []) none
  some
      (line_add_tag tag 1700 start ∷ (in_batch (codes "batch=" ++ bid) (l ∷ m ∷ ls) ++ (stop ∷ [])))

-- `none` where a line does not fit its buffer. Nothing is captured any more, and `client_send` sends.
unfoldable pub client_label_end : (ℕ → Bool) → Bytes → Bytes → Bytes → Out → Option Out
unfolding labeled send_all
client_label_end realloc ts srvname bid o =
    if not o.label_capture
    then some o
    else if o.label_defer && o.label_lines == 0
    then some (record o { label_capture = false; label_defer = false })
    else do
      lines ← labeled srvname bid o.label o.label_buf
      some (
          drop_labels
            (send_all realloc ts (record o { label_capture = false; label_defer = false }) lines))
