-- ===== src/Basic/Tables.antt =====
-- The keyword tables of the Color BASIC tokenizer of tools/decb.py.
use Prim.Native.Char.{code}
use Prim.Native.String.{String}
use xroar_dev.Base.{ℕ, List, [], ◌∷◌}

-- The code points of a text.
abbrev pub codes : String → List ℕ
codes String.[] = []
codes (String.◌∷◌ c s) = code c ∷ codes s

unfoldable pub coco_statements : List (List ℕ)
coco_statements =
    codes "FOR"
    ∷ codes "GO"
    ∷ codes "REM"
    ∷ codes "'"
    ∷ codes "ELSE"
    ∷ codes "IF"
    ∷ codes "DATA"
    ∷ codes "PRINT"
    ∷ codes "ON"
    ∷ codes "INPUT"
    ∷ codes "END"
    ∷ codes "NEXT"
    ∷ codes "DIM"
    ∷ codes "READ"
    ∷ codes "RUN"
    ∷ codes "RESTORE"
    ∷ codes "RETURN"
    ∷ codes "STOP"
    ∷ codes "POKE"
    ∷ codes "CONT"
    ∷ codes "LIST"
    ∷ codes "CLEAR"
    ∷ codes "NEW"
    ∷ codes "CLOAD"
    ∷ codes "CSAVE"
    ∷ codes "OPEN"
    ∷ codes "CloseFile"
    ∷ codes "LLIST"
    ∷ codes "SET"
    ∷ codes "RESET"
    ∷ codes "ClearPage"
    ∷ codes "MOTOR"
    ∷ codes "SOUND"
    ∷ codes "AUDIO"
    ∷ codes "EXEC"
    ∷ codes "SKIPF"
    ∷ codes "TAB("
    ∷ codes "TO"
    ∷ codes "SUB"
    ∷ codes "THEN"
    ∷ codes "NOT"
    ∷ codes "STEP"
    ∷ codes "OFF"
    ∷ codes "+"
    ∷ codes "-"
    ∷ codes "*"
    ∷ codes "/"
    ∷ codes "^"
    ∷ codes "AND"
    ∷ codes "OR"
    ∷ codes ">"
    ∷ codes "="
    ∷ codes "<"
    ∷ codes "DEL"
    ∷ codes "EDIT"
    ∷ codes "TRON"
    ∷ codes "TROFF"
    ∷ codes "DEF"
    ∷ codes "LET"
    ∷ codes "LINE"
    ∷ codes "PCLS"
    ∷ codes "SetPixel"
    ∷ codes "PRESET"
    ∷ codes "SCREEN"
    ∷ codes "PCLEAR"
    ∷ codes "COLOR"
    ∷ codes "CIRCLE"
    ∷ codes "PAINT"
    ∷ codes "GET"
    ∷ codes "PUT"
    ∷ codes "DRAW"
    ∷ codes "CopyPage"
    ∷ codes "PMODE"
    ∷ codes "PLAY"
    ∷ codes "DLOAD"
    ∷ codes "RENUM"
    ∷ codes "FN"
    ∷ codes "USING"
    ∷ codes "DIR"
    ∷ codes "DRIVE"
    ∷ codes "FIELD"
    ∷ codes "FILES"
    ∷ codes "KILL"
    ∷ codes "LOAD"
    ∷ codes "LSET"
    ∷ codes "MERGE"
    ∷ codes "RENAME"
    ∷ codes "RSET"
    ∷ codes "SAVE"
    ∷ codes "WRITE"
    ∷ codes "VERIFY"
    ∷ codes "UNLOAD"
    ∷ codes "DSKINI"
    ∷ codes "BACKUP"
    ∷ codes "COPY"
    ∷ codes "DSKI$"
    ∷ codes "DSKO$"
    ∷ codes "DOS"
    ∷ codes "WIDTH"
    ∷ codes "PALETTE"
    ∷ codes "HSCREEN"
    ∷ codes "LPOKE"
    ∷ codes "HCLS"
    ∷ codes "HCOLOR"
    ∷ codes "HPAINT"
    ∷ codes "HCIRCLE"
    ∷ codes "HLINE"
    ∷ codes "HGET"
    ∷ codes "HPUT"
    ∷ codes "HBUFF"
    ∷ codes "HPRINT"
    ∷ codes "ERR"
    ∷ codes "BRK"
    ∷ codes "LOCATE"
    ∷ codes "HSTAT"
    ∷ codes "HSET"
    ∷ codes "HRESET"
    ∷ codes "HDRAW"
    ∷ codes "CMP"
    ∷ codes "RGB"
    ∷ codes "ATTR"
    ∷ []

unfoldable pub coco_functions : List (List ℕ)
coco_functions =
    codes "SGN"
    ∷ codes "INT"
    ∷ codes "ABS"
    ∷ codes "USR"
    ∷ codes "RND"
    ∷ codes "SIN"
    ∷ codes "PEEK"
    ∷ codes "LEN"
    ∷ codes "STR$"
    ∷ codes "VAL"
    ∷ codes "ASC"
    ∷ codes "CHR$"
    ∷ codes "EOF"
    ∷ codes "ReadJoystick"
    ∷ codes "LEFT$"
    ∷ codes "RIGHT$"
    ∷ codes "MID$"
    ∷ codes "POINT"
    ∷ codes "INKEY$"
    ∷ codes "MEM"
    ∷ codes "ATN"
    ∷ codes "COS"
    ∷ codes "TAN"
    ∷ codes "EXP"
    ∷ codes "FIX"
    ∷ codes "LOG"
    ∷ codes "POS"
    ∷ codes "SQR"
    ∷ codes "HEX$"
    ∷ codes "VARPTR"
    ∷ codes "INSTR"
    ∷ codes "TIMER"
    ∷ codes "GetPixel"
    ∷ codes "STRING$"
    ∷ codes "CVN"
    ∷ codes "FREE"
    ∷ codes "LOC"
    ∷ codes "LOF"
    ∷ codes "MKN$"
    ∷ codes "AS"
    ∷ codes "LPEEK"
    ∷ codes "BUTTON"
    ∷ codes "HPOINT"
    ∷ codes "ERNO"
    ∷ codes "ERLIN"
    ∷ []

abbrev pub tok_print : ℕ
tok_print = 0x87

abbrev pub tok_rem : ℕ
tok_rem = 0x82

abbrev pub tok_apos : ℕ
tok_apos = 0x83

abbrev pub tok_data : ℕ
tok_data = 0x86

abbrev pub txttab : ℕ
txttab = 0x2601
