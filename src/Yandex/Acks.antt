-- ===== src/Yandex/Acks.antt =====
-- pkg/wgturn/provider/yandex/ws.go: which frames of the socket the loop acks.
use wgturn_core.Prelude.{
  Bool, true, false, not, ◌&&◌, List, [], ◌∷◌, ◌++◌, Option, none, some, Bytes, codes, equal,
  equal_iff, ok, ◌≡◌, ◌≢◌, refl, map, ap, ◌∙◌, Bool-cases, inl, inr, All, arith,
}
use wgturn_core.Json.{
  Json, null, boolean, number, text, array, object, Fields, at_key, text_or_empty,
}
use wgturn_core.Tunnel.{is_nil}
use wgturn_core.Yandex.{TurnServer}
use wgturn_core.Yandex.Flow.{
  SocketEvent, frame, uid_of, is_some, needs_ack, acked, scan_frame_for_turn, frame_loop, loop_step,
}
use wgturn_core.Yandex.Frames.{frame_loop-frame}

-- A frame that needs an ack of `uid`: an object with that text as its uid, which is not empty and not the
-- hello's, and with no field `ack`.
pub data NeedsAck (hello : Bytes) (raw : Option Json) (uid : Bytes) : Type 0 where
  message :
      (m : Fields)
      → raw ≡ some (object m)
      → at_key (codes "uid") m ≡ some (text uid)
      → uid ≢ []
      → uid ≢ hello
      → at_key (codes "ack") m ≡ none
      → NeedsAck hello raw uid

-- Acks of frames: one of each frame that needs one, in their order.
pub data Acks (hello : Bytes) : List (Option Json) → List Bytes → Type 0 where
  no_frames : Acks hello [] []
  acks_next :
      {raw : Option Json} {uid : Bytes} {rest : List (Option Json)} {uids : List Bytes}
      → NeedsAck hello raw uid
      → Acks hello rest uids
      → Acks hello (raw ∷ rest) (uid ∷ uids)
  passes_over :
      {raw : Option Json} {rest : List (Option Json)} {uids : List Bytes}
      → ((uid : Bytes) → ¬ NeedsAck hello raw uid)
      → Acks hello rest uids
      → Acks hello (raw ∷ rest) uids

is_nil-empty : (s : Bytes) → is_nil s ≡ false → s ≢ []
is_nil-empty [] h = cc
is_nil-empty (c ∷ s) h = cc

not_empty : (s : Bytes) → s ≢ [] → is_nil s ≡ false
not_empty [] h = absurd (h refl)
not_empty (c ∷ s) h = refl

is_some-none : (v : Option Json) → is_some v ≡ false → v ≡ none
is_some-none none h = refl
is_some-none (some v) h = cc

text_or_empty-text :
    (v : Option Json) → is_nil (text_or_empty v) ≡ false → v ≡ some (text (text_or_empty v))
text_or_empty-text (some (text s)) h = refl
text_or_empty-text none h = cc
text_or_empty-text (some null) h = cc
text_or_empty-text (some (boolean b)) h = cc
text_or_empty-text (some (number z whole)) h = cc
text_or_empty-text (some (array vs)) h = cc
text_or_empty-text (some (object fs)) h = cc

not_both :
    (a b c : Bool) → (not a && (not b && not c)) ≡ true → (a ≡ false) × (b ≡ false) × (c ≡ false)
not_both false false false h = (refl, refl, refl)
not_both true b c h = cc
not_both false true c h = cc
not_both false false true h = cc

equal-apart : (a b : Bytes) → equal a b ≡ false → a ≢ b
equal-apart a b h = λ e. ground (arith, equal_iff a b)

apart-equal : (a b : Bytes) → a ≢ b → equal a b ≡ false
apart-equal a b h = ground (arith, equal_iff a b)

needs_ack_sound :
    (hello : Bytes) (raw : Option Json)
    → needs_ack hello raw ≡ true
    → NeedsAck hello raw (uid_of raw)
unfolding needs_ack
needs_ack_sound hello (some (object m)) h =
    let (has_uid, no_ack, other) = not_both _ _ _ h in
    message m refl (text_or_empty-text (at_key (codes "uid") m) has_uid) (is_nil-empty _ has_uid)
      (equal-apart _ hello other) (is_some-none (at_key (codes "ack") m) no_ack)
needs_ack_sound hello none h = cc
needs_ack_sound hello (some null) h = cc
needs_ack_sound hello (some (boolean b)) h = cc
needs_ack_sound hello (some (number z whole)) h = cc
needs_ack_sound hello (some (text s)) h = cc
needs_ack_sound hello (some (array vs)) h = cc

needs_ack_complete :
    (hello : Bytes) (raw : Option Json) (uid : Bytes)
    → NeedsAck hello raw uid
    → needs_ack hello raw ≡ true
unfolding needs_ack
needs_ack_complete hello raw uid (message m e at has_uid other no_ack) =
    rw (e, at, not_empty uid has_uid, no_ack, apart-equal uid hello other) refl

-- One frame more.
acked-Acks :
    (hello : Bytes) (raw : Option Json) (rest : List (Option Json)) (uids : List Bytes)
    → Acks hello rest uids
    → Acks hello (raw ∷ rest) (acked hello raw uids)
acked-Acks hello raw rest uids h = elim (Bool-cases (needs_ack hello raw)) [
  | inl e ↦ rw (e) (acks_next (needs_ack_sound hello raw e) h)
  | inr e ↦ rw (e) (passes_over (λ uid n. cc (needs_ack_complete hello raw uid n, e)) h)
]

-- Frames that no server is found in.
abbrev pub IsSilent : Option Json → Type 0
IsSilent raw = scan_frame_for_turn raw ≡ none

-- The loop reads the frames in front of the first one with a server, and that one, acks each of them that
-- has a uid other than the hello's and no field `ack`, once and in their order, acks no other, and
-- returns that server; the later frames are not read.
pub frame_loop-Acks :
    (hello : Bytes) (quiet : List (Option Json)) (raw : Option Json) (t : TurnServer)
    (rest : List SocketEvent)
    → All IsSilent quiet
    → scan_frame_for_turn raw ≡ some t
    → (uids : List Bytes) × Acks hello (quiet ++ (raw ∷ [])) uids
      × (frame_loop hello (map frame quiet ++ (frame raw ∷ rest)) ≡ (uids, ok t))
frame_loop-Acks hello [] raw t rest h e = (
  acked hello raw [],
  acked-Acks hello raw [] [] no_frames,
  frame_loop-frame hello raw rest ∙ ap (λ o. loop_step hello raw o (frame_loop hello rest)) e,
)
frame_loop-Acks hello (q ∷ quiet) raw t rest h e =
    let later = map frame quiet ++ (frame raw ∷ rest) in
    let (uids, acks, runs) = frame_loop-Acks hello quiet raw t rest (h.1) e in
    (
      acked hello q uids,
      acked-Acks hello q (quiet ++ (raw ∷ [])) uids acks,
      frame_loop-frame hello q later
          ∙ (ap (λ o. loop_step hello q o (frame_loop hello later)) (h.0)
              ∙ ap (λ r. loop_step hello q none r) runs),
    )
