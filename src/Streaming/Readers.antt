-- ===== src/Streaming/Readers.antt =====
-- What a subscriber of backend/src/kosmo/infrastructure/api/implementation_broker.py is to give, and
-- how the broker's steps change it.
use mathlib.Core.List.{append-nil, append_assoc}
use kosmo.Base.{
  Bool, true, false, ◌&&◌, ◌||◌, Option, none, some, List, [], ◌∷◌, ◌++◌, if◌then◌else◌, ◌≡◌, refl,
  ap, sym, ◌∙◌,
}
use kosmo.Streaming.{OpenCodeEvent, Reader, put_nowait, read, advance, wait, done_reader}

-- The events of a queue before its end.
abbrev pub until_end : List (Option OpenCodeEvent) → List OpenCodeEvent
until_end [] = []
until_end (none ∷ q) = []
until_end (some e ∷ q) = e ∷ until_end q

abbrev pub has_end : List (Option OpenCodeEvent) → Bool
has_end [] = false
has_end (none ∷ q) = true
has_end (some e ∷ q) = has_end q

-- Everything that a subscriber has given, and what it will give of what it has.
abbrev pub told : Reader → List OpenCodeEvent
told r = r.output ++ (r.snapshot ++ (if r.listens then until_end r.queue else []))

-- Whether nothing more reaches it.
abbrev pub is_shut : Reader → Bool
is_shut r = if r.registered && r.listens then has_end r.queue else true

abbrev pub message_events : Option OpenCodeEvent → List OpenCodeEvent
message_events none = []
message_events (some e) = e ∷ []

abbrev pub is_end : Option OpenCodeEvent → Bool
is_end none = true
is_end (some e) = false

until_end-append :
    (q : List (Option OpenCodeEvent)) (m : Option OpenCodeEvent)
    → until_end (q ++ (m ∷ [])) ≡ until_end q ++ (if has_end q then [] else message_events m)
until_end-append [] none = refl
until_end-append [] (some e) = refl
until_end-append (none ∷ q) m = refl
until_end-append (some e ∷ q) m = ap (λ r. e ∷ r) (until_end-append q m)

has_end-append :
    (q : List (Option OpenCodeEvent)) (m : Option OpenCodeEvent)
    → has_end (q ++ (m ∷ [])) ≡ (has_end q || is_end m)
has_end-append [] none = refl
has_end-append [] (some e) = refl
has_end-append (none ∷ q) m = refl
has_end-append (some e ∷ q) m = has_end-append q m

-- What a message adds to the events of a subscriber, and whether it shuts it.
pub told-put_nowait :
    (m : Option OpenCodeEvent) (r : Reader)
    → told (put_nowait m r) ≡ told r ++ (if is_shut r then [] else message_events m)
unfolding put_nowait
told-put_nowait m r = at r.output r.snapshot r.queue r.is_done r.listens r.registered
  where
    at :
        (o s : List OpenCodeEvent) (q : List (Option OpenCodeEvent)) (d listens registered : Bool)
        → (let r : Reader = record {
          output = o;
          snapshot = s;
          queue = q;
          listens = listens;
          registered = registered;
          is_done = d;
        } in
            told (put_nowait m r) ≡ told r ++ (if is_shut r then [] else message_events m))
    at o s q d true true =
        ap (λ t. o ++ (s ++ t)) (until_end-append q m)
        ∙ ap (λ t. o ++ t)
            (sym (append_assoc s (until_end q) (if has_end q then [] else message_events m)))
        ∙ sym (append_assoc o (s ++ until_end q) (if has_end q then [] else message_events m))
    at o s q d false true = sym (append-nil _)
    at o s q d true false = sym (append-nil _)
    at o s q d false false = sym (append-nil _)

pub is_shut-put_nowait :
    (m : Option OpenCodeEvent) (r : Reader) → is_shut (put_nowait m r) ≡ (is_shut r || is_end m)
unfolding put_nowait
is_shut-put_nowait m r = at r.output r.snapshot r.queue r.is_done r.listens r.registered
  where
    at :
        (o s : List OpenCodeEvent) (q : List (Option OpenCodeEvent)) (d listens registered : Bool)
        → (let r : Reader = record {
          output = o;
          snapshot = s;
          queue = q;
          listens = listens;
          registered = registered;
          is_done = d;
        } in
            is_shut (put_nowait m r) ≡ (is_shut r || is_end m))
    at o s q d true true = has_end-append q m
    at o s q d false true = refl
    at o s q d true false = refl
    at o s q d false false = refl

-- Reading moves the events and loses none.
pub told-read : (r : Reader) → told (read r) ≡ told r
unfolding read advance wait done_reader
told-read r = at r.output r.snapshot r.queue r.is_done r.listens r.registered
  where
    at :
        (o s : List OpenCodeEvent) (q : List (Option OpenCodeEvent)) (d listens registered : Bool)
        → (let r : Reader = record {
          output = o;
          snapshot = s;
          queue = q;
          listens = listens;
          registered = registered;
          is_done = d;
        } in
            told (read r) ≡ told r)
    at o (e ∷ s) q d listens registered = append_assoc o (e ∷ []) _
    at o [] q d false registered = refl
    at o [] [] d true registered = refl
    at o [] (none ∷ q) d true registered = refl
    at o [] (some e ∷ q) d true registered = append_assoc o (e ∷ []) (until_end q)

pub is_shut-read : (r : Reader) → is_shut (read r) ≡ is_shut r
unfolding read advance wait done_reader
is_shut-read r = at r.output r.snapshot r.queue r.is_done r.listens r.registered
  where
    at :
        (o s : List OpenCodeEvent) (q : List (Option OpenCodeEvent)) (d listens registered : Bool)
        → (let r : Reader = record {
          output = o;
          snapshot = s;
          queue = q;
          listens = listens;
          registered = registered;
          is_done = d;
        } in
            is_shut (read r) ≡ is_shut r)
    at o (e ∷ s) q d listens registered = refl
    at o [] q d false true = refl
    at o [] q d false false = refl
    at o [] [] d true registered = refl
    at o [] (none ∷ q) d true true = refl
    at o [] (none ∷ q) d true false = refl
    at o [] (some e ∷ q) d true registered = refl
