-- ===== src/Telegram/Alerts.antt =====
-- Notify, notifyLoop and broadcast of internal/telegram/bot.go: the queue between the proxy and the admins.
use proxygo.Base.{
  ℕ, zero, suc, ◌+◌, ◌≤◌, ◌<◌, ◌≡◌, refl, sym, ◌∙◌, ap, arith, List, [], ◌∷◌, ◌++◌, append_assoc,
  append-nil, map, ltb, if◌then◌else◌, length, length-append,
}
use proxygo.Base.Int.{ℤ}

abbrev pub Text : Type 0
Text = List ℕ

-- `sent` is what went to the API, the latest last; `drops` counts the alerts that found no room.
pub record Queue : Type 0 where
  pub waiting : List Text
  pub sent : List (ℤ × Text)
  pub drops : ℕ

abbrev pub capacity : ℕ
capacity = 256

-- Notify never waits: where the channel is full the alert is dropped.
unfoldable pub notify : Text → Queue → Queue
notify text q =
    if ltb (length q.waiting) capacity
    then record q { waiting = q.waiting ++ (text ∷ []) }
    else record q { drops = q.drops + 1 }

abbrev pub broadcast : List ℤ → Text → List (ℤ × Text)
broadcast [] text = []
broadcast (id ∷ ids) text = (id, text) ∷ broadcast ids text

-- One turn of notifyLoop; with nothing in the channel it waits.
abbrev pub deliver : List ℤ → List Text → Queue → Queue
deliver ids [] q = q
deliver ids (text ∷ texts) q = record q { waiting = texts; sent = q.sent ++ broadcast ids text }

unfoldable pub loop_turn : List ℤ → Queue → Queue
loop_turn ids q = deliver ids q.waiting q

unfoldable pub turns : List ℤ → ℕ → Queue → Queue
turns ids zero q = q
turns ids (suc n) q = turns ids n (loop_turn ids q)

-- Every text, in order, for every admin.
abbrev pub each_to_all : List ℤ → List Text → List (ℤ × Text)
each_to_all ids [] = []
each_to_all ids (text ∷ texts) = map (λ id. (id, text)) ids ++ each_to_all ids texts

broadcast-map : (ids : List ℤ) (text : Text) → broadcast ids text ≡ map (λ id. (id, text)) ids
broadcast-map [] text = refl
broadcast-map (id ∷ ids) text = ap (λ l. (id, text) ∷ l) (broadcast-map ids text)

turns-waiting :
    (ids : List ℤ) (waiting : List Text) (sent : List (ℤ × Text)) (drops : ℕ)
    → turns ids (length waiting) (record { waiting = waiting; sent = sent; drops = drops })
      ≡ record { waiting = []; sent = sent ++ each_to_all ids waiting; drops = drops }
unfolding turns loop_turn
turns-waiting ids [] sent drops =
    ap (λ s. record { waiting = []; sent = s; drops = drops }) (sym (append-nil sent))
turns-waiting ids (text ∷ texts) sent drops =
    turns-waiting ids texts (sent ++ broadcast ids text) drops
    ∙ ap (λ s. record { waiting = []; sent = s; drops = drops })
        (append_assoc sent (broadcast ids text) (each_to_all ids texts)
          ∙ ap (λ l. sent ++ (l ++ each_to_all ids texts)) (broadcast-map ids text))

-- The alerts of one burst: those that still find room.
unfoldable pub notify_all : List Text → Queue → Queue
notify_all [] q = q
notify_all (text ∷ texts) q = notify_all texts (notify text q)

notify-room :
    (text : Text) (q : Queue)
    → length q.waiting < capacity
    → notify text q ≡ record q { waiting = q.waiting ++ (text ∷ []) }
unfolding notify
notify-room text q room = ground (arith, room)

notify_all-room :
    (texts : List Text) (q : Queue)
    → length q.waiting + length texts ≤ capacity
    → notify_all texts q ≡ record q { waiting = q.waiting ++ texts }
unfolding notify_all
notify_all-room [] q room = ap (λ w. record q { waiting = w }) (sym (append-nil q.waiting))
notify_all-room (text ∷ texts) q room =
    ap (notify_all texts) (notify-room text q (omega arith))
    ∙ notify_all-room texts (record q { waiting = q.waiting ++ (text ∷ []) })
        (omega (arith, length-append q.waiting (text ∷ [])))
    ∙ ap (λ w. record q { waiting = w }) (append_assoc q.waiting (text ∷ []) texts)

-- A burst of alerts that the channel has room for is delivered to every admin, in order, behind what
-- was sent before and behind the alerts that were waiting, once the loop has taken as many turns as
-- alerts are waiting; none is dropped.
pub turns-notify_all :
    (ids : List ℤ) (texts : List Text) (q : Queue)
    → length q.waiting + length texts ≤ capacity
    → turns ids (length q.waiting + length texts) (notify_all texts q)
      ≡ record q { waiting = []; sent = q.sent ++ each_to_all ids (q.waiting ++ texts) }
turns-notify_all ids texts q room =
    let all = q.waiting ++ texts in
    ap (λ n. turns ids n (notify_all texts q)) (sym (length-append q.waiting texts))
    ∙ ap (turns ids (length all)) (notify_all-room texts q room)
    ∙ turns-waiting ids all q.sent q.drops
