-- ===== src/Tests/Query.antt =====
-- Runs of the queries of src/lib/schwa/dr/query.cc and their theorems at concrete inputs.
use libschwa.Prelude.{ℕ, ◌≡◌, ◌↔◌, refl, Bool, true, false, Option, none, some, List, [], ◌∷◌}
use libschwa.Prelude.Int.{pos, negsuc}
use libschwa.Exec.{ok, err, compile_error, runtime_error}
use libschwa.Exec.{◌>>=◌}
use libschwa.Io.ArrayReader.{create, get, peek}
use libschwa.Io.Effects.{get_byte}
use libschwa.Msgpack.Table.{header_type}
use libschwa.Msgpack.Read.{read_uint, read_val_uint_fixed}
use libschwa.Msgpack.Enums.{
  is_array, is_bool, is_map, is_sint, is_uint, map_fixed, array_fixed, fixnum_positive,
}
use libschwa.Msgpack.Dynamic
use libschwa.Msgpack.Dynamic.{
  element, Values, no_values, value_and, Pairs, no_pairs, pair_and, via_map, via_uint64,
}
use libschwa.Query.Syntax
use libschwa.Query.Syntax.{
  Text, Token, literal_integer, op_numeric3, op_numeric4, function, var, var_attribute, open_paren,
  close_paren, comma, Expr, variable, binary, call, arg_and, no_args,
}
use libschwa.Query.Numbers.{int_text, scan_int, strtoll}
use libschwa.Query.Grammar.{E1}
use libschwa.Query.Parser.{parse}
use libschwa.Query.Parser.Ensures.{Ensures}
use libschwa.Query.Parser.Sound.{parse-Ensures}
use libschwa.Query.Parser.Complete.{parse_iff}
use libschwa.Query.Value.{
  RtFieldDef, RtStoreDef, RtSchema, Value, annotation, document, integer, missing, as_int, to_bool,
}
use libschwa.Query.Context.{EvalContext, find, erase}
use libschwa.Query.Variable.{ann_name, annotate, iterate, variable_eval, decode}
use libschwa.Query.Operators.{minus_op}
use libschwa.Query.Functions.{any_name, all_name}
use libschwa.Query.Eval.{doc_name, eval, interpret}
use libschwa.Query.Eval.Stores.{entered}
use libschwa.Query.Eval.Types.{Has, types}
use libschwa.Query.Eval.Keeps.{Keeps}
use libschwa.Query.Eval.Sound.{eval-types, eval-Keeps}
use libschwa.Query.Eval.Loops.{
  quantified, Instances, no_instances, instance_and, annotate-nested, ann-after_iterate,
  eval-quantifier,
}

abbrev compiles : Text → Bool
compiles text = true

abbrev no_match : Text → Text → Option ℕ
no_match text re = none

-- 9 - 4 - 3.
abbrev minus_tokens : List Token
minus_tokens =
    record { type = literal_integer; text = 57 ∷ [] }
    ∷ record { type = op_numeric3; text = minus_op }
    ∷ record { type = literal_integer; text = 52 ∷ [] }
    ∷ record { type = op_numeric3; text = minus_op }
    ∷ record { type = literal_integer; text = 51 ∷ [] }
    ∷ []

abbrev minus_expr : Expr
minus_expr =
    binary minus_op (Syntax.integer (pos 9))
      (binary minus_op (Syntax.integer (pos 4)) (Syntax.integer (pos 3)))

parsed_minus : parse compiles minus_tokens ≡ (ok minus_expr, [])
unfolding parse ◌>>=◌ scan_int
parsed_minus = refl

-- It is 9 - (4 - 3).
evaluated_minus : (interpret no_match minus_expr none 0).0 ≡ ok (integer (pos 8))
unfolding interpret ◌>>=◌
evaluated_minus = refl

parsed_trailing_comma :
    (parse compiles (
      record { type = function; text = any_name }
      ∷ record { type = open_paren; text = 40 ∷ [] }
      ∷ record { type = literal_integer; text = 57 ∷ [] }
      ∷ record { type = comma; text = 44 ∷ [] }
      ∷ record { type = close_paren; text = 41 ∷ [] }
      ∷ [])).0
    ≡ err compile_error
unfolding parse ◌>>=◌ scan_int
parsed_trailing_comma = refl

numbers_in_texts :
    (strtoll (32 ∷ 45 ∷ 49 ∷ 50 ∷ 120 ∷ []) ≡ (negsuc 11, 120 ∷ []))
    × (int_text (negsuc 11) ≡ 45 ∷ 49 ∷ 50 ∷ [])
unfolding strtoll int_text
numbers_in_texts = (refl, refl)

parse-Ensures_example :
    Ensures (λ e rest. (rest ≡ []) × E1 compiles minus_tokens e) (parse compiles minus_tokens)
parse-Ensures_example = parse-Ensures compiles minus_tokens

parse_iff_example :
    (parse compiles minus_tokens ≡ (ok minus_expr, [])) ↔ E1 compiles minus_tokens minus_expr
parse_iff_example = parse_iff compiles minus_tokens minus_expr

-- A document with a store `s` of two annotations, whose fields `x` are 1 and 0.
abbrev x_field : RtFieldDef
x_field = record {
  serial = 120 ∷ [];
  points_into = false;
  is_slice = false;
  is_self_pointer = false;
}

abbrev s_store : RtStoreDef
s_store = record {
  serial = 115 ∷ [];
  klass_fields = x_field ∷ [];
  lazy_data = 0x92 ∷ 0x81 ∷ 0 ∷ 1 ∷ 0x81 ∷ 0 ∷ 0 ∷ [];
  lazy_nelem = 2;
}

abbrev schema : RtSchema
schema = record { fields = []; stores = s_store ∷ []; lazy_data = 0x80 ∷ [] }

abbrev context : EvalContext
context = record { doc = some schema; stores = []; vars = (doc_name, document) ∷ [] }

abbrev x_map : ℕ → Pairs
x_map n =
    pair_and (Dynamic.value fixnum_positive (via_uint64 0))
      (Dynamic.value fixnum_positive (via_uint64 n)) no_pairs

abbrev x_value : ℕ → Dynamic.Value
x_value n = Dynamic.value map_fixed (via_map (x_map n))

-- doc.s and ann.x.
abbrev doc_s : Expr
doc_s = variable doc_name (some (115 ∷ []))

abbrev ann_x : Expr
ann_x = variable ann_name (some (120 ∷ []))

abbrev any_x : Expr
any_x = call any_name (arg_and doc_s (arg_and ann_x no_args))

abbrev all_x : Expr
all_x = call all_name (arg_and doc_s (arg_and ann_x no_args))

-- Whether one, and whether each, of the annotations has an x that is not 0.
evaluated_loops :
    ((interpret no_match any_x (some schema) 0).0 ≡ ok (integer (pos 1)))
    × ((interpret no_match all_x (some schema) 0).0 ≡ ok (integer (pos 0)))
unfolding interpret ◌>>=◌ peek create header_type get_byte is_map get read_uint is_array element
    is_uint read_val_uint_fixed is_bool is_sint
evaluated_loops = (refl, refl)

any_x-eval : eval no_match any_x context ≡ (ok (integer (pos 1)), context)
unfolding eval ◌>>=◌ peek create header_type get_byte is_map get read_uint is_array element is_uint
    read_val_uint_fixed is_bool is_sint
any_x-eval = refl

eval-types_example : Has (types any_x) (integer (pos 1))
eval-types_example = eval-types no_match any_x context context (integer (pos 1)) any_x-eval

eval-Keeps_example : Keeps context context
eval-Keeps_example = eval-Keeps no_match any_x context context (integer (pos 1)) any_x-eval

-- The value of ann.x for the annotations of `s`.
abbrev x_of : Pairs → Value
x_of (pair_and key (Dynamic.value type (via_uint64 n)) rest) = integer (pos n)
x_of _ = missing

x_maps-Instances :
    Instances (value_and (x_value 1) (value_and (x_value 0) no_values)) (x_map 1 ∷ x_map 0 ∷ [])
unfolding is_map
x_maps-Instances =
    instance_and map_fixed (x_map 1) refl (instance_and map_fixed (x_map 0) refl no_instances)

eval-quantifier_example :
    eval no_match all_x context
    ≡ (ok (as_int (quantified false (λ m. to_bool (x_of m)) (x_map 1 ∷ x_map 0 ∷ []))), context)
unfolding eval find decode entered ◌>>=◌ peek create header_type get_byte is_map get read_uint
    is_array element is_uint read_val_uint_fixed is_bool is_sint
eval-quantifier_example =
    eval-quantifier no_match false doc_s ann_x s_store x_of array_fixed
      (value_and (x_value 1) (value_and (x_value 0) no_values)) (x_map 1 ∷ x_map 0 ∷ []) context
      refl refl refl refl x_maps-Instances (refl, λ e. (refl, λ f. tt))

abbrev outer_context : EvalContext
outer_context = record {
  doc = some schema;
  stores = s_store ∷ [];
  vars = (ann_name, annotation (x_map 7)) ∷ [];
}

annotate-nested_example :
    annotate s_store (variable_eval ann_name none) (x_value 1) outer_context
    ≡ (ok (annotation (x_map 7)), record outer_context { vars = erase ann_name outer_context.vars })
unfolding find is_map
annotate-nested_example =
    annotate-nested s_store map_fixed (x_map 1) outer_context (annotation (x_map 7)) refl refl

abbrev ann_gone : EvalContext
ann_gone = record { doc = some schema; stores = s_store ∷ []; vars = [] }

ann-after_iterate_example :
    variable_eval ann_name (some (120 ∷ [])) ann_gone ≡ (err runtime_error, ann_gone)
unfolding iterate ◌>>=◌ is_map variable_eval
ann-after_iterate_example =
    ann-after_iterate s_store (variable_eval ann_name none) true true (x_value 1) no_values
      outer_context ann_gone (some (120 ∷ [])) refl
