-- ===== src/Console/Led.antt =====
-- The status LED of user/user_main.c and driver/sio.c, with the timer that switches it off, as a state
-- machine. The LED is lit by the level 0.
use esp_slip_router.Console.Events.{
  WifiEvent, stamode_connected, stamode_disconnected, stamode_authmode_change, stamode_got_ip,
  other_event,
}
use esp_slip_router.Prelude.{ℕ, ◌≡◌, refl, Bool, true, false, if◌then◌else◌}

-- the level of the pin, whether the timer is armed, and the global `connected`
pub record Led : Type 0 where
  pub level : ℕ
  pub armed : Bool
  pub connected : Bool

-- what sio_send and write_to_pbuf do to it
unfoldable pub led_traffic : Led → Led
led_traffic l = record l { level = 0 }

-- the timer's callback
unfoldable pub timer_func : Led → Led
timer_func l = record l { level = 1 }

unfoldable pub led_ready : Led → Led
led_ready l = record l { level = 1; armed = true }

-- what wifi_handle_event_cb does to it
unfoldable pub led_event : WifiEvent → Led → Led
unfolding led_ready
led_event stamode_connected l = l
led_event stamode_disconnected l = record l { connected = false; armed = false; level = 0 }
led_event stamode_authmode_change l = l
led_event (stamode_got_ip ip) l = record (led_ready l) { connected = true }
led_event other_event l = l

-- what user_init does to it
unfoldable pub led_init : Bool → Led → Led
unfolding led_ready
led_init use_ap l = let lit = record l { level = 0 } in if use_ap then led_ready lit else lit

-- One thing that happens; the timer calls back while it is armed.
pub data Step : Led → Led → Type 0 where
  traffic : {l : Led} → Step l (led_traffic l)
  tick : {l : Led} → l.armed ≡ true → Step l (timer_func l)
  event : {l : Led} (e : WifiEvent) → Step l (led_event e l)

-- The chip starts with the timer not armed, and not connected.
abbrev pub reset_led : Led
reset_led = record { level = 1; armed = false; connected = false }

pub data Reached (use_ap : Bool) : Led → Type 0 where
  begun : Reached use_ap (led_init use_ap reset_led)
  after : {l l' : Led} → Reached use_ap l → Step l l' → Reached use_ap l'

-- The timer is armed exactly while the router is connected, and as long as it is not the LED is lit.
pub record Shows (l : Led) : Type 0 where
  pub armed : l.armed ≡ l.connected
  pub lit : l.connected ≡ false → l.level ≡ 0

Step-Shows : {l l' : Led} → Shows l → Step l l' → Shows l'
unfolding led_traffic timer_func led_event led_ready
Step-Shows s traffic = record { armed = s.armed; lit = λ _. refl }
Step-Shows s (tick on) = record { armed = s.armed; lit = λ off. absurd cc }
Step-Shows s (event stamode_connected) = s
Step-Shows s (event stamode_disconnected) = record { armed = refl; lit = λ _. refl }
Step-Shows s (event stamode_authmode_change) = s
Step-Shows s (event (stamode_got_ip ip)) = record { armed = refl; lit = λ off. absurd cc }
Step-Shows s (event other_event) = s

-- In station mode, the LED is lit whenever the router is not connected, whatever traffic, events and
-- ticks of the timer there were; the timer is armed exactly while it is connected.
pub Reached-Shows : {l : Led} → Reached false l → Shows l
unfolding led_init
Reached-Shows begun = record { armed = refl; lit = λ _. refl }
Reached-Shows (after r s) = Step-Shows (Reached-Shows r) s
