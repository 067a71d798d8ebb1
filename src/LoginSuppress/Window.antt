-- ===== src/LoginSuppress/Window.antt =====
-- The window of hours of internal/loginsuppress/loginsuppress.go in machine integers.
use dotvault.Prelude.{
  ℕ, ◌-◌, ◌*◌, ◌<◌, ◌≤◌, ltb, Str, false, ◌&&◌, some, ok, ℤ, pos, parse_int, is_empty, ◌≡◌, arith,
}
use dotvault.LoginSuppress.{hour, to_int64, window, is_fresh}

-- For a positive number of hours below 5,124,096 there is a window; below 2,562,048 a marker is
-- fresh exactly while it is younger than that many hours, and from there on never.
pub is_fresh-window :
    (raw path : Str) (n t now : ℕ)
    → is_empty raw ≡ false
    → parse_int raw ≡ ok (pos n)
    → 0 < n
    → n < 5_124_096
    → is_empty path ≡ false
    → t ≤ now
    → (w : ℤ) × (window raw ≡ some w)
      × (is_fresh path w (some t) now ≡ ltb n 2_562_048 && ltb (now - t) (n * hour))
unfolding window is_fresh
is_fresh-window raw path n t now given reads positive bounded named past = (
  to_int64 (n * hour),
  ground (arith, given, reads, positive),
  unfold to_int64 in ground (arith, named, past, bounded),
)
