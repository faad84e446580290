-- ===== src/Expr/Node.antt =====
-- rantanplan/cpp/src/problem/expr_pool.hpp and expr_pool.cpp: handles, payloads, nodes and the key
-- under which a node is interned. A finite double is a whole number of units of 2 ^ -1074 with a
-- sign (every finite double is one); the payload bits of a NaN are not kept.
pub mod Key
pub mod Equal
pub mod Tests
use ran_tan_plan.Prelude.{
  ℕ, zero, suc, ◌+◌, ◌*◌, ◌/◌, ◌%◌, ◌^◌, Bool, true, false, ◌&&◌, ◌||◌, Option, none, some, List,
  [], ◌∷◌, ◌++◌, ltb, ◌==◌, if◌then◌else◌, length, Text, ℤ, pos, negsuc, show_nat, show_int,
}
use ran_tan_plan.Expr.Kinds.{ExprKind, ExprOperator, kind_code, op_code}

-- `id` is -1 for EXPR_NULL, else an index of the pool.
pub data ExprId : Type 0 where
  null : ExprId
  ref : ℕ → ExprId

pub valid : ExprId → Bool
valid null = false
valid (ref i) = true

pub id_int : ExprId → ℤ
id_int null = negsuc 0
id_int (ref i) = pos i

unfoldable pub id_beq : ExprId → ExprId → Bool
id_beq null null = true
id_beq (ref i) (ref j) = i == j
id_beq _ _ = false

pub data Double : Type 0 where
  nan inf : Bool → Double
  fin : Bool → ℕ → Double

pub data ExprPayload : Type 0 where
  monostate : ExprPayload
  bool : Bool → ExprPayload
  int64 : ℤ → ExprPayload
  double : Double → ExprPayload
  string : Text → ExprPayload

-- `op` and `type_id` are -1 where they are `none` here.
pub record ExprNode : Type 0 where
  pub kind : ExprKind
  pub op : Option ExprOperator
  pub type_id : Option ℕ
  pub children : List ExprId
  pub payload : ExprPayload

-- A double times 10 ^ 6, rounded half to even.
micros : ℕ → ℕ
micros units =
    let scaled = units * 10 ^ 6 in
    let unit = 2 ^ 1074 in
    let q = scaled / unit in
    let r = scaled % unit in
    if ltb unit (2 * r) || (2 * r == unit) && (q % 2 == 1) then q + 1 else q

minus_if : Bool → Text
minus_if true = b'-' ∷ []
minus_if false = []

zeros : ℕ → Text
zeros zero = []
zeros (suc n) = b'0' ∷ zeros n

pad6 : ℕ → Text
unfolding zeros
pad6 n =
    if ltb n 10
    then zeros 5 ++ show_nat n
    else if ltb n 100
    then zeros 4 ++ show_nat n
    else if ltb n 1000
    then zeros 3 ++ show_nat n
    else if ltb n 10000
    then zeros 2 ++ show_nat n
    else if ltb n 100000
    then zeros 1 ++ show_nat n
    else show_nat n

-- `std::to_string(double)` prints as `%f` does: six digits behind the point.
pub double_text : Double → Text
unfolding micros minus_if pad6
double_text (nan s) = minus_if s ++ b'n' ∷ b'a' ∷ b'n' ∷ []
double_text (inf s) = minus_if s ++ b'i' ∷ b'n' ∷ b'f' ∷ []
double_text (fin s u) =
    let m = micros u in minus_if s ++ (show_nat (m / 10 ^ 6) ++ b'.' ∷ pad6 (m % 10 ^ 6))

op_int : Option ExprOperator → ℤ
op_int none = negsuc 0
op_int (some o) = pos (op_code o)

type_int : Option ℕ → ℤ
type_int none = negsuc 0
type_int (some t) = pos t

pub payload_key : ExprPayload → Text
payload_key monostate = b'n' ∷ b':' ∷ []
payload_key (bool b) = b'b' ∷ b':' ∷ (if b then b'1' else b'0') ∷ []
payload_key (int64 z) = b'i' ∷ b':' ∷ show_int z
payload_key (double d) = b'd' ∷ b':' ∷ double_text d
payload_key (string s) = b's' ∷ b':' ∷ (show_nat (length s) ++ b':' ∷ s)

-- The rest of the loop over the children: each is preceded by a comma.
more_children : List ExprId → Text
unfolding id_int
more_children [] = []
more_children (c ∷ cs) = b',' ∷ (show_int (id_int c) ++ more_children cs)

children_key : List ExprId → Text
unfolding more_children
children_key [] = []
children_key (c ∷ cs) = show_int (id_int c) ++ more_children cs

pub canonical_key : ExprNode → Text
unfolding op_int type_int payload_key children_key
canonical_key n =
    show_int (pos (kind_code n.kind))
    ++ b':'
      ∷ (show_int (op_int n.op)
          ++ b':'
            ∷ (show_int (type_int n.type_id)
                ++ b'|' ∷ (payload_key n.payload ++ b'|' ∷ children_key n.children)))
