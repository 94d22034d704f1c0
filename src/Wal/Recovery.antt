-- ===== src/Wal/Recovery.antt =====
-- `md_recover_from_wal_file`: going over the records of a log file.
use smartbackup_fs.Base.{
  ℕ, zero, suc, ◌+◌, ◌-◌, ◌%◌, ◌^◌, ◌≤◌, ◌<◌, ◌≡◌, refl, sym, ap, ◌∙◌, false, Option, none, some,
  List, [], ◌∷◌, ◌++◌, append_assoc, append-nil, length, length-append, drop, map, ltb, ◌==◌,
  if◌then◌else◌, arith,
}
use mathlib.Core.Option
use mathlib.Core.Path.{subst}
use smartbackup_fs.Wal.Header.{
  TransactionHeader, Fits, encode, decode, length-encode, decode-encode,
}

-- what recovery does with a record: so far it only reports
pub data Action : Type 0 where
  reapply roll_back ignore : ℕ → Action

unfoldable pub action : TransactionHeader → Action
action h =
    if h.state == 1
    then Action.reapply h.tx_id
    else if h.state == 0
    then Action.roll_back h.tx_id
    else Action.ignore h.tx_id

-- `sizeof(transaction_header_t) + header->data_size`, as a `size_t`
abbrev pub entry_size : TransactionHeader → ℕ
entry_size h = (52 + h.data_size) % 2 ^ 64

-- `remaining -= entry_size`
abbrev pub less : ℕ → ℕ → ℕ
less remaining size = (remaining + 2 ^ 64 - size) % 2 ^ 64

-- The loop, on fuel, at the bytes from `current` to the end of the buffer. `none` is a header read
-- past the buffer, or a loop that does not advance.
unfoldable pub recover_from : ℕ → ℕ → List ℕ → Option (List Action)
recover_from zero remaining bs = none
recover_from (suc fuel) remaining bs =
    let h = (decode bs).0 in
    let rest = recover_from fuel (less remaining (entry_size h)) (drop (entry_size h) bs) in
    if ltb remaining 52
    then some []
    else if ltb (length bs) 52
    then none
    else Option.map (λ actions. action h ∷ actions) rest

-- Every record has 52 bytes at least, so that a round for every byte is enough.
unfoldable pub md_recover_from_wal_file : List ℕ → Option (List Action)
md_recover_from_wal_file bs = recover_from (suc (length bs)) (length bs) bs

-- a record as it is logged: the header, then its data
pub record Entry : Type 0 where
  pub header : TransactionHeader
  pub payload : List ℕ

-- the file's bytes for a list of records
unfoldable pub logged : List Entry → List ℕ
logged [] = []
logged (e ∷ es) = encode e.header ++ (e.payload ++ logged es)

-- Every header fits its fields and gives the size of its data.
abbrev pub AreSized : List Entry → Type 0
AreSized [] = Unit
AreSized (e ∷ es) = Fits e.header × (e.header.data_size ≡ length e.payload) × AreSized es

drop-append : (xs ys : List ℕ) → drop (length xs) (xs ++ ys) ≡ ys
drop-append [] ys = refl
drop-append (x ∷ xs) ys = drop-append xs ys

-- one round, at a record that lies in the buffer
recover_one :
    (e : Entry) (tail : List ℕ) (fuel : ℕ)
    → Fits e.header
    → e.header.data_size ≡ length e.payload
    → length (encode e.header ++ (e.payload ++ tail)) < 2 ^ 64
    → recover_from
        (suc fuel)
        (length (encode e.header ++ (e.payload ++ tail)))
        (encode e.header ++ (e.payload ++ tail))
      ≡ Option.map (λ actions. action e.header ∷ actions) (recover_from fuel (length tail) tail)
unfolding recover_from
recover_one e tail fuel f sized small =
    let size = length-append (encode e.header) (e.payload ++ tail) in
    let size' = length-append e.payload tail in
    let head = length-encode e.header in
    let long : ltb (length (encode e.header ++ (e.payload ++ tail))) 52 ≡ false =
      ground (arith, size, size', head) in
    let entry : entry_size e.header ≡ length (encode e.header ++ e.payload) =
      omega (arith, size, size', head, length-append (encode e.header) e.payload) in
    let left : less (length (encode e.header ++ (e.payload ++ tail)))
          (length (encode e.header ++ e.payload))
        ≡ length tail =
      omega (arith, size, size', head, length-append (encode e.header) e.payload) in
    let below : drop (length (encode e.header ++ e.payload))
          (encode e.header ++ (e.payload ++ tail))
        ≡ tail =
      ap (drop (length (encode e.header ++ e.payload)))
        (sym (append_assoc (encode e.header) e.payload tail))
      ∙ drop-append (encode e.header ++ e.payload) tail in
    let read : (decode (encode e.header ++ (e.payload ++ tail))).0 ≡ e.header =
      ap (λ r. r.0) (decode-encode e.header (e.payload ++ tail) f) in
    rw (long, read, entry, left, below) refl

map_none_done : (o : Option (List Action)) → o ≡ Option.map (λ actions. [] ++ actions) o
map_none_done none = refl
map_none_done (some r) = refl

map_more :
    (e : Entry) (es : List Entry) (o : Option (List Action))
    → Option.map
        (λ actions. action e.header ∷ actions)
        (Option.map (λ actions. map (λ e. action e.header) es ++ actions) o)
      ≡ Option.map (λ actions. map (λ e. action e.header) (e ∷ es) ++ actions) o
map_more e es none = refl
map_more e es (some r) = refl

-- what the loop makes of a buffer that holds the records and then the tail
abbrev Reaches : List Entry → List ℕ → ℕ → ℕ → List ℕ → Type 0
Reaches es tail fuel left bs =
    recover_from fuel (length bs) bs
    ≡ Option.map (λ actions. map (λ e. action e.header) es ++ actions)
        (recover_from left (length tail) tail)

-- The records that recovery goes over, and what is left to do at the end of them.
recover_all :
    (es : List Entry) (tail : List ℕ) (fuel : ℕ)
    → AreSized es
    → length (logged es ++ tail) < 2 ^ 64
    → length (logged es ++ tail) < fuel
    → (left : ℕ) × (length tail < left)
      × (recover_from fuel (length (logged es ++ tail)) (logged es ++ tail)
          ≡ Option.map
              (λ actions. map (λ e. action e.header) es ++ actions)
              (recover_from left (length tail) tail))
unfolding logged
recover_all [] tail fuel v small enough =
    (fuel, enough, map_none_done (recover_from fuel (length tail) tail))
recover_all (e ∷ es) tail zero v small enough = absurd (omega arith)
recover_all (e ∷ es) tail (suc fuel) v small enough =
    let same : logged (e ∷ es) ++ tail ≡ encode e.header ++ (e.payload ++ (logged es ++ tail)) =
      append_assoc (encode e.header) (e.payload ++ logged es) tail
      ∙ ap (λ r. encode e.header ++ r) (append_assoc e.payload (logged es) tail) in
    let size = ap length same in
    let size' = length-append (encode e.header) (e.payload ++ (logged es ++ tail)) in
    let size'' = length-append e.payload (logged es ++ tail) in
    let head = length-encode e.header in
    let (left, long, rest) =
      recover_all es tail fuel v.2 (omega (arith, size, size', size'', head, small))
        (omega (arith, size, size', size'', head, enough)) in
    let now = recover_one e (logged es ++ tail) fuel v.0 v.1 (omega (arith, size, small)) in
    (
      left,
      long,
      subst (Reaches (e ∷ es) tail (suc fuel) left) (sym same) (
          now
          ∙ ap (Option.map (λ actions. action e.header ∷ actions)) rest
          ∙ map_more e es (recover_from left (length tail) tail)),
    )

recover_end : (left : ℕ) → 0 < left → recover_from left 0 [] ≡ some []
unfolding recover_from
recover_end zero h = absurd (omega arith)
recover_end (suc left) h = refl

recover_past : (left remaining : ℕ) → 52 ≤ remaining → recover_from left remaining [] ≡ none
unfolding recover_from
recover_past zero remaining h = refl
recover_past (suc left) remaining h =
    let more : ltb remaining 52 ≡ false = ground arith in rw more refl

drop_past : (n : ℕ) (xs : List ℕ) → length xs ≤ n → drop n xs ≡ []
drop_past zero [] h = refl
drop_past zero (x ∷ xs) h = absurd (omega arith)
drop_past (suc n) [] h = refl
drop_past (suc n) (x ∷ xs) h = drop_past n xs (omega arith)

-- the last record, when it is cut short
recover_cut :
    (h : TransactionHeader) (payload : List ℕ) (left : ℕ)
    → Fits h
    → length payload < h.data_size
    → h.data_size < 2 ^ 63
    → length (encode h ++ payload) < left
    → recover_from left (length (encode h ++ payload)) (encode h ++ payload) ≡ none
unfolding recover_from
recover_cut h payload zero f short bound long = absurd (omega arith)
recover_cut h payload (suc left) f short bound long =
    let size = length-append (encode h) payload in
    let head = length-encode h in
    let enough : ltb (length (encode h ++ payload)) 52 ≡ false = ground (arith, size, head) in
    let read : (decode (encode h ++ payload)).0 ≡ h = ap (λ r. r.0) (decode-encode h payload f) in
    let below : drop (entry_size h) (encode h ++ payload) ≡ [] =
      drop_past (entry_size h) (encode h ++ payload) (omega (arith, size, head)) in
    let past =
      recover_past left (less (length (encode h ++ payload)) (entry_size h))
        (omega (arith, size, head)) in
    rw (enough, read, below, past) refl

-- A file that holds whole records is gone over to its end: recovery meets every record, with the
-- action for its state, in the order of the log.
pub md_recover_from_wal_file-logged :
    (es : List Entry)
    → AreSized es
    → length (logged es) < 2 ^ 64
    → md_recover_from_wal_file (logged es) ≡ some (map (λ e. action e.header) es)
unfolding md_recover_from_wal_file
md_recover_from_wal_file-logged es v small =
    let all = append-nil (logged es) in
    let size = ap length all in
    let (left, long, e) =
      recover_all es [] (suc (length (logged es ++ []))) v (omega (arith, size)) (omega arith) in
    subst (λ bs. md_recover_from_wal_file bs ≡ some (map (λ e. action e.header) es)) all
      (e
        ∙ ap (Option.map (λ actions. map (λ e. action e.header) es ++ actions))
            (recover_end left long)
        ∙ ap some (append-nil (map (λ e. action e.header) es)))

-- A file whose last record has less data than its header says makes recovery read past the buffer.
pub md_recover_from_wal_file-cut :
    (es : List Entry) (h : TransactionHeader) (payload : List ℕ)
    → AreSized es
    → Fits h
    → length payload < h.data_size
    → h.data_size < 2 ^ 63
    → length (logged es ++ (encode h ++ payload)) < 2 ^ 64
    → md_recover_from_wal_file (logged es ++ (encode h ++ payload)) ≡ none
unfolding md_recover_from_wal_file
md_recover_from_wal_file-cut es h payload v f short bound small =
    let bs = logged es ++ (encode h ++ payload) in
    let (left, long, e) =
      recover_all es (encode h ++ payload) (suc (length bs)) v small (omega arith) in
    e
    ∙ ap (Option.map (λ actions. map (λ e. action e.header) es ++ actions))
        (recover_cut h payload left f short bound long)
