-- ===== src/Ui.antt =====
-- ui.cpp: the start, the notice, the button, and the tick. M5's answers are arguments.
use nowde.Prelude.{
  ℕ, ◌+◌, ◌%◌, Bool, true, false, ◌&&◌, ◌||◌, List, [], ◌∷◌, ltb, ◌==◌, if◌then◌else◌, ◌++◌, take,
  replicate, strncpy, u32, sub32,
}
use nowde.Config.{board_atoms3, board_atoms3_lite}
use nowde.Effects.{Effect, clear_store, restart}
use nowde.Node.{Node}
use nowde.Panel.{
  SyncState, Rgb, rgb, status_color, led_show, Ui, StatusPage, status_page, Readings, InfoPage,
  info_page,
}

-- REFRESH_MS.
abbrev pub refresh_ms : ℕ
refresh_ms = 200

-- `uiLog`: the first 23 characters, for three seconds.
unfoldable pub ui_log : ℕ → List ℕ → Ui → Ui
ui_log now line u = record u {
  notice = take 23 (strncpy 24 line) ++ 0 ∷ [];
  notice_until = u32 (now + 3000);
}

-- The boards that M5Unified tells apart and `uiDetectBoard` asks for.
pub data M5Board : Type 0 where
  m5_atoms3 : M5Board
  m5_atoms3_lite : M5Board
  m5_atoms3_u : M5Board
  m5_other : M5Board

-- `uiDetectBoard`.
unfoldable pub ui_detect_board : Bool → M5Board → ℕ
ui_detect_board has_display m5_atoms3 = board_atoms3
ui_detect_board has_display m5_atoms3_lite = board_atoms3_lite
ui_detect_board has_display m5_atoms3_u = board_atoms3_lite
ui_detect_board has_display m5_other = if has_display then board_atoms3 else 0

-- What the button answers after `M5.update()`: `wasClicked`, `pressedFor(HOLD_RESET_MS)`,
-- `wasReleased`.
pub record Button : Type 0 where
  pub clicked : Bool
  pub held : Bool
  pub released : Bool

-- What a tick draws.
pub data Screen : Type 0 where
  unchanged : Screen
  booting : Screen
  reset_notice : Screen
  status : StatusPage → Screen
  info : InfoPage → Screen
  led : Rgb → Screen

-- `uiInit`: what M5Unified finds, and what is lit until the first tick.
unfoldable pub ui_init : Bool → Ui × Screen
ui_init has_display = (
  record {
    has_display = has_display;
    page = 0;
    last_refresh = 0;
    hold_armed = true;
    notice = replicate 24 0;
    notice_until = 0;
  },
  if has_display then booting else led (rgb 0 0 60),
)

-- A click of a node with a display turns the page, which is then drawn at once.
abbrev pub click : Button → Ui → Ui
click b u =
    if b.clicked && u.has_display then record u { page = (u.page + 1) % 2; last_refresh = 0 } else u

-- The rest of a tick that did not reset the node: release, and a refresh every 200 ms.
abbrev pub refresh : ℕ → ℕ → SyncState → Readings → Node → Button → Ui → Ui × Screen
refresh now last sync r n b u =
    let v = record u { hold_armed = u.hold_armed || b.released } in
    let drawn =
      if u.has_display
      then if u.page == 0 then status (status_page now last sync n u) else info (info_page now r n)
      else led (led_show now (status_color now last sync n)) in
    if ltb (sub32 now u.last_refresh) refresh_ms
    then (v, unchanged)
    else (record v { last_refresh = now }, drawn)

-- `uiTick`. After a hold of 3 s the store is cleared and the chip restarts; nothing after that runs.
unfoldable pub ui_tick :
    ℕ → ℕ → SyncState → Readings → Node → Button → Ui → Ui × Screen × List Effect
ui_tick now last sync r n b u =
    let v = click b u in
    let (w, screen) = refresh now last sync r n b v in
    if b.held && v.hold_armed
    then (record v { hold_armed = false }, reset_notice, clear_store ∷ restart ∷ [])
    else (w, screen, [])
