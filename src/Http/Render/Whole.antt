-- ===== src/Http/Render/Whole.antt =====
-- What rk3588-media-gateway/src/api/http_server.c renders is whole: the pieces in their order, or
-- nothing.
use learn_apue.Base.{
  ℕ, ◌<◌, Bool, true, false, List, [], ◌∷◌, ◌++◌, ◌≡◌, ◌≢◌, ◌↔◌, Option, refl, ap, ◌∙◌, arith,
  length, length-append,
}
use learn_apue.Base.Text.{Bytes}
use learn_apue.Http.Json.{
  IsWritten, quoted, json_append-IsWritten, json_string-IsWritten, json_append_failed,
  json_string_failed,
}
use learn_apue.Http.Render.{
  Piece, raw, quote, write_piece, write_pieces, metrics_pieces, render_channel_metrics,
}
use learn_apue.Http.{JsonWriter, body_cap, finish_response}
use learn_apue.Snapshot.{Snapshot}
use learn_apue.Status.{ok, overflow, GwError}
use mathlib.Core.List.{append_assoc, append-nil}

unfoldable pub piece_text : Piece → Bytes
piece_text (raw s) = s
piece_text (quote s) = quoted s

unfoldable pub whole_text : List Piece → Bytes
whole_text [] = []
whole_text (p ∷ ps) = piece_text p ++ whole_text ps

write_piece-IsWritten :
    (w : JsonWriter) (p : Piece)
    → w.failed ≡ false
    → length w.written < w.capacity
    → IsWritten w (write_piece w p) (piece_text p)
unfolding write_piece piece_text
write_piece-IsWritten w (raw s) on room = json_append-IsWritten w s on
write_piece-IsWritten w (quote s) on room = json_string-IsWritten w s on room

write_piece_failed : (w : JsonWriter) (p : Piece) → w.failed ≡ true → write_piece w p ≡ w
unfolding write_piece
write_piece_failed w (raw s) off = json_append_failed w s off
write_piece_failed w (quote s) off = json_string_failed w s off

write_pieces_failed : (w : JsonWriter) (ps : List Piece) → w.failed ≡ true → write_pieces w ps ≡ w
unfolding write_pieces
write_pieces_failed w [] off = refl
write_pieces_failed w (p ∷ ps) off =
    ap (λ v. write_pieces v ps) (write_piece_failed w p off) ∙ write_pieces_failed w ps off

pub write_pieces-IsWritten :
    (w : JsonWriter) (ps : List Piece)
    → w.failed ≡ false
    → length w.written < w.capacity
    → IsWritten w (write_pieces w ps) (whole_text ps)
unfolding write_pieces whole_text
write_pieces-IsWritten w [] on room = ground (arith, append-nil w.written)
write_pieces-IsWritten w (p ∷ ps) on room =
    let next = write_piece w p in
    ground (
      arith,
      write_piece-IsWritten w p on room,
      write_pieces_failed next ps,
      write_pieces-IsWritten next ps,
      length-append (piece_text p) (whole_text ps),
      length-append w.written (piece_text p),
      append_assoc w.written (piece_text p) (whole_text ps),
    )

-- The metrics of a channel are rendered whole, all pieces in their order, exactly when they fit the
-- body with its terminating zero; otherwise the call returns an overflow.
pub render_channel_metrics_whole :
    (fixed3 : ℕ → Bytes) (isfinite : ℕ → Bool) (s : Snapshot) (error : Option GwError)
    → (let r = render_channel_metrics fixed3 isfinite s error in
        let whole = whole_text (metrics_pieces fixed3 isfinite s) in
        ((r.status ≡ ok) ↔ (length whole < body_cap))
        × (r.status ≡ ok → r.response.body ≡ whole)
        × (r.status ≢ ok → r.status ≡ overflow))
unfolding render_channel_metrics finish_response
render_channel_metrics_whole fixed3 isfinite s error =
    let w : JsonWriter = record { written = []; capacity = body_cap; failed = false } in
    ground (arith, write_pieces-IsWritten w (metrics_pieces fixed3 isfinite s) refl (omega arith))
