-- ===== src/Dock/Notifier/MenuTree/Overrun.antt =====
-- What a push does to a full array whose growth is refused.
use nizam.Prelude.{ℕ, ◌*◌, ◌<◌, ◌≡◌, Bool, true, false, arith, leb, ◌==◌, length}
use nizam.Dock.State.{MenuItem}
use nizam.Dock.Notifier.MenuTree.{Builder, put_item, menu_builder_push}

-- The second of two pushes writes behind an array that is full and is refused the memory to grow:
-- the first one gives up its item and keeps the doubled capacity, and the second trusts that.
pub push-push_overruns :
    (grants : ℕ → Bool) (b : Builder) (x y : MenuItem)
    → 0 < b.room
    → b.cap ≡ b.room
    → length b.items ≡ b.room
    → grants (b.cap * 2) ≡ false
    → (menu_builder_push grants (menu_builder_push grants b x) y).overrun ≡ true
unfolding menu_builder_push put_item
push-push_overruns grants b x y pos full all refused =
    let used : (b.cap == 0) ≡ false = ground arith in
    let at_end : leb b.cap (length b.items) ≡ true = ground arith in
    let doubled : (b.cap * 2 == 0) ≡ false = ground arith in
    let below : leb (b.cap * 2) (length b.items) ≡ false = ground arith in
    let there : (b.room == 0) ≡ false = ground arith in
    let behind : leb b.room (length b.items) ≡ true = ground arith in
    simp (used, at_end, refused, doubled, below, there, behind) (ground arith)
