-- ===== src/Json.antt =====
-- JSON values (serde_json's `Value`), over a type `N` of numbers, and their compact text.
use pg_ros.Base.{Bool, true, false, [], ◌++◌, Text, ascii}

mutual
  pub data Json (N : Type 0) : Type 0 where
    null : Json N
    bool : Bool → Json N
    number : N → Json N
    string : Text → Json N
    array : Items N → Json N
    object : Members N → Json N

  pub data Items (N : Type 0) : Type 0 where
    no_items : Items N
    item : Json N → Items N → Items N

  -- The members of an object, in their order.
  pub data Members (N : Type 0) : Type 0 where
    no_members : Members N
    member : Text → Json N → Members N → Members N

module _ {N : Type 0} (number_text : N → Text) (quote : Text → Text) where
  -- The text with no spaces: `print_items` and `print_members` of a part that is not the first put a
  -- comma before each entry.
  unfoldable mutual
    pub print : Json N → Text
    print null = ascii "null"
    print (bool true) = ascii "true"
    print (bool false) = ascii "false"
    print (number n) = number_text n
    print (string s) = quote s
    print (array items) = ascii "[" ++ (print_first items ++ ascii "]")
    print (object members) = ascii "{" ++ (print_first_member members ++ ascii "}")

    pub print_first : Items N → Text
    print_first no_items = []
    print_first (item j js) = print j ++ print_rest js

    pub print_rest : Items N → Text
    print_rest no_items = []
    print_rest (item j js) = ascii "," ++ (print j ++ print_rest js)

    pub print_first_member : Members N → Text
    print_first_member no_members = []
    print_first_member (member k j ms) =
        quote k ++ (ascii ":" ++ (print j ++ print_rest_members ms))

    pub print_rest_members : Members N → Text
    print_rest_members no_members = []
    print_rest_members (member k j ms) =
        ascii "," ++ (quote k ++ (ascii ":" ++ (print j ++ print_rest_members ms)))
