-- ===== src/Starfield/Stars/Table.antt =====
-- `rndtable` of rndtable.h, signed chars: its 128 is −128 in one.
use tcb.Base.{List, [], ◌∷◌}
use tcb.Base.Int.{ℤ, pos, minus}

abbrev pub rndtable : List ℤ
rndtable =
    pos 91
    ∷ minus 97
    ∷ minus 111
    ∷ minus 14
    ∷ pos 100
    ∷ pos 28
    ∷ minus 24
    ∷ minus 51
    ∷ pos 87
    ∷ pos 61
    ∷ minus 16
    ∷ pos 95
    ∷ minus 43
    ∷ minus 95
    ∷ minus 51
    ∷ minus 54
    ∷ pos 69
    ∷ pos 24
    ∷ minus 128
    ∷ pos 43
    ∷ pos 115
    ∷ pos 97
    ∷ minus 39
    ∷ pos 102
    ∷ pos 56
    ∷ minus 37
    ∷ minus 117
    ∷ minus 124
    ∷ minus 115
    ∷ minus 28
    ∷ pos 24
    ∷ minus 103
    ∷ minus 16
    ∷ pos 78
    ∷ minus 83
    ∷ minus 59
    ∷ minus 118
    ∷ minus 117
    ∷ minus 90
    ∷ pos 79
    ∷ minus 10
    ∷ minus 4
    ∷ minus 42
    ∷ pos 105
    ∷ pos 20
    ∷ pos 12
    ∷ pos 66
    ∷ minus 91
    ∷ minus 40
    ∷ pos 124
    ∷ pos 115
    ∷ minus 103
    ∷ pos 103
    ∷ minus 118
    ∷ pos 6
    ∷ minus 51
    ∷ minus 119
    ∷ pos 90
    ∷ minus 82
    ∷ pos 97
    ∷ minus 68
    ∷ pos 77
    ∷ pos 56
    ∷ minus 113
    ∷ minus 34
    ∷ minus 95
    ∷ minus 40
    ∷ pos 123
    ∷ minus 41
    ∷ pos 28
    ∷ pos 68
    ∷ pos 103
    ∷ pos 38
    ∷ pos 4
    ∷ minus 21
    ∷ minus 56
    ∷ minus 75
    ∷ pos 55
    ∷ minus 52
    ∷ pos 75
    ∷ minus 19
    ∷ minus 91
    ∷ pos 48
    ∷ pos 89
    ∷ pos 88
    ∷ minus 17
    ∷ minus 32
    ∷ pos 8
    ∷ minus 42
    ∷ minus 127
    ∷ pos 3
    ∷ pos 37
    ∷ minus 77
    ∷ minus 35
    ∷ pos 82
    ∷ pos 66
    ∷ minus 103
    ∷ pos 117
    ∷ minus 69
    ∷ pos 90
    ∷ minus 70
    ∷ minus 65
    ∷ pos 45
    ∷ pos 26
    ∷ pos 31
    ∷ minus 20
    ∷ minus 87
    ∷ pos 74
    ∷ minus 119
    ∷ minus 18
    ∷ pos 69
    ∷ pos 107
    ∷ minus 65
    ∷ pos 37
    ∷ pos 69
    ∷ pos 2
    ∷ minus 70
    ∷ pos 119
    ∷ minus 12
    ∷ minus 84
    ∷ minus 100
    ∷ pos 26
    ∷ pos 107
    ∷ pos 116
    ∷ minus 54
    ∷ minus 41
    ∷ minus 27
    ∷ pos 114
    ∷ pos 34
    ∷ pos 15
    ∷ minus 57
    ∷ pos 78
    ∷ minus 87
    ∷ pos 80
    ∷ pos 17
    ∷ minus 112
    ∷ minus 94
    ∷ minus 76
    ∷ pos 84
    ∷ pos 104
    ∷ pos 105
    ∷ minus 28
    ∷ minus 45
    ∷ minus 41
    ∷ pos 16
    ∷ minus 12
    ∷ pos 6
    ∷ minus 42
    ∷ pos 8
    ∷ minus 16
    ∷ pos 24
    ∷ pos 121
    ∷ minus 34
    ∷ pos 90
    ∷ minus 116
    ∷ minus 103
    ∷ pos 92
    ∷ pos 97
    ∷ minus 72
    ∷ pos 10
    ∷ minus 2
    ∷ pos 28
    ∷ pos 52
    ∷ minus 19
    ∷ pos 38
    ∷ minus 113
    ∷ minus 20
    ∷ pos 29
    ∷ minus 9
    ∷ minus 62
    ∷ minus 10
    ∷ pos 65
    ∷ pos 55
    ∷ minus 74
    ∷ minus 32
    ∷ minus 115
    ∷ pos 42
    ∷ pos 116
    ∷ minus 112
    ∷ minus 64
    ∷ minus 59
    ∷ pos 16
    ∷ pos 105
    ∷ pos 85
    ∷ pos 42
    ∷ minus 38
    ∷ minus 44
    ∷ minus 121
    ∷ minus 48
    ∷ minus 117
    ∷ minus 36
    ∷ pos 24
    ∷ pos 59
    ∷ minus 80
    ∷ pos 5
    ∷ pos 117
    ∷ minus 74
    ∷ pos 39
    ∷ minus 2
    ∷ pos 60
    ∷ minus 18
    ∷ minus 26
    ∷ pos 98
    ∷ minus 100
    ∷ minus 36
    ∷ minus 25
    ∷ pos 32
    ∷ minus 78
    ∷ minus 32
    ∷ pos 109
    ∷ minus 55
    ∷ pos 80
    ∷ pos 124
    ∷ pos 116
    ∷ pos 79
    ∷ pos 79
    ∷ minus 109
    ∷ minus 97
    ∷ pos 122
    ∷ minus 37
    ∷ minus 110
    ∷ pos 79
    ∷ minus 88
    ∷ minus 43
    ∷ pos 112
    ∷ pos 74
    ∷ pos 0
    ∷ minus 52
    ∷ minus 23
    ∷ minus 86
    ∷ minus 46
    ∷ minus 113
    ∷ minus 32
    ∷ pos 86
    ∷ pos 51
    ∷ minus 22
    ∷ pos 73
    ∷ minus 27
    ∷ minus 112
    ∷ minus 111
    ∷ minus 116
    ∷ pos 16
    ∷ pos 92
    ∷ minus 63
    ∷ minus 63
    ∷ minus 92
    ∷ pos 117
    ∷ minus 99
    ∷ minus 74
    ∷ pos 19
    ∷ pos 126
    ∷ minus 40
    ∷ pos 24
    ∷ minus 117
    ∷ minus 68
    ∷ minus 93
    ∷ []
