-- ===== src/Vxlan/VniTests.antt =====
-- must_be_int on the VNI of a VLAN: a number, None, a list or a dictionary stays as it is.
use netlab.Prelude.{◌≡◌, ◌≢◌, refl, String, Bool, true, false, not, Option, some, [], if◌then◌else◌}
use netlab.Data.{ℤ, pos, Value, null, bool, int, str, list, dict, Fields, get, has}
use netlab.Vxlan.Vni.{vni_request, max_vni}
use netlab.Types.Framework.{
  Status, valid, replaced, wrong_type, wrong_value, Outcome, done, raised, TypeTest, execute_test,
  check_values, post_validation, get_value_to_check, fetch, fetched,
}
use netlab.Types.Scalars.{must_be_int, int_status, check_num_type}

-- The outcome of a test that does not change the parent.
abbrev pub Leaves : Fields → Outcome → Type 0
Leaves b (raised errors) = Unit
Leaves b (done parent v errors) = parent ≡ b

Leaves-checks :
    (b : Fields) (v : Value) (status : Status)
    → ((w : Value) → status ≢ replaced w)
    → Leaves b (check_values vni_request status (post_validation vni_request "vni" b v status))
unfolding post_validation
Leaves-checks b v valid h = refl
Leaves-checks b v (replaced w) h = absurd (h w refl)
Leaves-checks b v wrong_type h = refl
Leaves-checks b v wrong_value h = refl

Leaves-if :
    (c : Bool) (b : Fields) (x y : Outcome)
    → Leaves b x
    → Leaves b y
    → Leaves b (if c then x else y)
Leaves-if true b x y u v = u
Leaves-if false b x y u v = v

range_status_keeps : (c : Bool) (w : Value) → (if c then wrong_value else valid) ≢ replaced w
range_status_keeps true w h = cc h
range_status_keeps false w h = cc h

abbrev vni_test : (String → Option ℤ) → TypeTest
vni_test int_of = must_be_int int_of (some (pos 2)) (some (pos max_vni))

-- Only a text is replaced, and only a Boolean is converted.
abbrev is_plain : Value → Bool
is_plain (str s) = false
is_plain (bool b) = false
is_plain v = true

module _ (int_of : String → Option ℤ) (b : Fields) where
  int_status_keeps :
      (v w : Value)
      → is_plain v ≡ true
      → int_status int_of (some (pos 2)) (some (pos max_vni)) v ≢ replaced w
  unfolding int_status check_num_type
  int_status_keeps null w h e = cc e
  int_status_keeps (bool c) w h e = cc h
  int_status_keeps (int n) w h e = range_status_keeps _ w e
  int_status_keeps (str s) w h e = cc h
  int_status_keeps (list xs) w h e = cc e
  int_status_keeps (dict c) w h e = cc e

  fetch_plain :
      (v : Value) → is_plain v ≡ true → fetch (vni_test int_of) vni_request "vni" b v ≡ fetched b v
  fetch_plain null h = refl
  fetch_plain (bool c) h = absurd (cc h)
  fetch_plain (int n) h = refl
  fetch_plain (str s) h = refl
  fetch_plain (list xs) h = refl
  fetch_plain (dict c) h = refl

  pub execute_test-Leaves :
      (v : Value)
      → is_plain v ≡ true
      → get b "vni" ≡ some v
      → Leaves b (execute_test (vni_test int_of) vni_request "vni" b)
  unfolding execute_test get_value_to_check
  execute_test-Leaves v plain h =
      rw (h, fetch_plain v plain)
        (Leaves-if (not (has b "vni")) b (done b v []) _ refl
          (Leaves-checks b v _ (λ w. int_status_keeps v w plain)))
