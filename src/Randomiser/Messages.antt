-- ===== src/Randomiser/Messages.antt =====
-- The random messages of python/qa_randomiser.py.
use gr_ccsds.Prelude.{List, [], ◌∷◌, Text}

abbrev pub random_messages : List Text
random_messages =
    (5 ∷ 82 ∷ 139 ∷ 85 ∷ 105 ∷ 88 ∷ 138 ∷ 165 ∷ 207 ∷ 211 ∷ 56 ∷ 152 ∷ 35 ∷ 11 ∷ 200 ∷ 117 ∷ 121
      ∷ 63 ∷ 9 ∷ 5 ∷ 169 ∷ 43 ∷ 151 ∷ 73 ∷ 253 ∷ 169 ∷ 101 ∷ 138 ∷ 11 ∷ 21 ∷ 201 ∷ 236 ∷ 76 ∷ 244
      ∷ 135 ∷ 251 ∷ 11 ∷ 158 ∷ 76 ∷ 32 ∷ 18 ∷ 103 ∷ 228 ∷ 2 ∷ 249 ∷ 241 ∷ 56 ∷ 222 ∷ 95 ∷ 28 ∷ 144
      ∷ 14 ∷ 115 ∷ 50 ∷ 79 ∷ 103 ∷ 164 ∷ 177 ∷ 189 ∷ 206 ∷ 198 ∷ 208 ∷ 39 ∷ 68 ∷ 155 ∷ 117 ∷ 57 ∷ 40
      ∷ 81 ∷ 187 ∷ 94 ∷ 182 ∷ 232 ∷ 255 ∷ 125 ∷ 250 ∷ 141 ∷ 1 ∷ 187 ∷ 4 ∷ 176 ∷ 171 ∷ 67 ∷ 2 ∷ 152
      ∷ 173 ∷ 204 ∷ 157 ∷ 86 ∷ 241 ∷ 203 ∷ 155 ∷ 222 ∷ 189 ∷ 235 ∷ 50 ∷ 124 ∷ 59 ∷ 197 ∷ 106 ∷ [])
    ∷ (213 ∷ 174 ∷ 135 ∷ 35 ∷ 255 ∷ 113 ∷ 81 ∷ 45 ∷ 255 ∷ 179 ∷ 16 ∷ 66 ∷ 21 ∷ 1 ∷ 8 ∷ 254 ∷ 193
        ∷ 194 ∷ 100 ∷ 194 ∷ 171 ∷ 83 ∷ 38 ∷ 67 ∷ 187 ∷ 121 ∷ 106 ∷ 226 ∷ 186 ∷ 203 ∷ 39 ∷ 250 ∷ 197
        ∷ 51 ∷ 206 ∷ 96 ∷ 124 ∷ 129 ∷ 194 ∷ 56 ∷ 74 ∷ 60 ∷ 117 ∷ 173 ∷ 234 ∷ 74 ∷ 119 ∷ 76 ∷ 235
        ∷ 143 ∷ 78 ∷ 174 ∷ 103 ∷ 240 ∷ 65 ∷ 5 ∷ 177 ∷ 187 ∷ 247 ∷ 126 ∷ 34 ∷ 124 ∷ 190 ∷ 151 ∷ 44
        ∷ 107 ∷ 117 ∷ 207 ∷ 13 ∷ 218 ∷ 97 ∷ 10 ∷ 90 ∷ 30 ∷ 0 ∷ 129 ∷ 17 ∷ 57 ∷ 51 ∷ 255 ∷ 213 ∷ 84
        ∷ 197 ∷ 118 ∷ 138 ∷ 56 ∷ 72 ∷ 87 ∷ 223 ∷ 102 ∷ 72 ∷ 115 ∷ 223 ∷ 41 ∷ 247 ∷ 25 ∷ 61 ∷ 77
        ∷ 161 ∷ 206 ∷ [])
    ∷ (155 ∷ 65 ∷ 42 ∷ 75 ∷ 154 ∷ 100 ∷ 88 ∷ 59 ∷ 216 ∷ 229 ∷ 238 ∷ 83 ∷ 31 ∷ 51 ∷ 220 ∷ 142 ∷ 208
        ∷ 194 ∷ 115 ∷ 18 ∷ 237 ∷ 182 ∷ 146 ∷ 63 ∷ 156 ∷ 25 ∷ 222 ∷ 149 ∷ 236 ∷ 162 ∷ 252 ∷ 40 ∷ 10
        ∷ 110 ∷ 231 ∷ 78 ∷ 181 ∷ 69 ∷ 190 ∷ 47 ∷ 91 ∷ 239 ∷ 252 ∷ 16 ∷ 102 ∷ 4 ∷ 215 ∷ 23 ∷ 229 ∷ 99
        ∷ 40 ∷ 93 ∷ 159 ∷ 81 ∷ 99 ∷ 215 ∷ 131 ∷ 146 ∷ 184 ∷ 2 ∷ 84 ∷ 72 ∷ 76 ∷ 188 ∷ 46 ∷ 135 ∷ 179
        ∷ 255 ∷ 240 ∷ 76 ∷ 233 ∷ 41 ∷ 128 ∷ 213 ∷ 200 ∷ 150 ∷ 72 ∷ 25 ∷ 178 ∷ 103 ∷ 176 ∷ 9 ∷ 149
        ∷ 237 ∷ 153 ∷ 205 ∷ 176 ∷ 131 ∷ 69 ∷ 143 ∷ 48 ∷ 197 ∷ 228 ∷ 48 ∷ 208 ∷ 146 ∷ 58 ∷ 32 ∷ 60
        ∷ 7 ∷ [])
    ∷ (17 ∷ 13 ∷ 33 ∷ 236 ∷ 31 ∷ 149 ∷ 134 ∷ 246 ∷ 190 ∷ 173 ∷ 118 ∷ 26 ∷ 199 ∷ 135 ∷ 81 ∷ 7 ∷ 104
        ∷ 219 ∷ 108 ∷ 164 ∷ 229 ∷ 171 ∷ 13 ∷ 162 ∷ 95 ∷ 148 ∷ 138 ∷ 156 ∷ 146 ∷ 15 ∷ 157 ∷ 34 ∷ 191
        ∷ 152 ∷ 231 ∷ 241 ∷ 77 ∷ 9 ∷ 71 ∷ 21 ∷ 88 ∷ 133 ∷ 196 ∷ 199 ∷ 177 ∷ 87 ∷ 211 ∷ 232 ∷ 92
        ∷ 226 ∷ 36 ∷ 36 ∷ 24 ∷ 189 ∷ 180 ∷ 64 ∷ 203 ∷ 3 ∷ 88 ∷ 85 ∷ 26 ∷ 163 ∷ 36 ∷ 58 ∷ 248 ∷ 62
        ∷ 30 ∷ 165 ∷ 168 ∷ 253 ∷ 152 ∷ 163 ∷ 177 ∷ 207 ∷ 211 ∷ 111 ∷ 75 ∷ 74 ∷ 211 ∷ 72 ∷ 31 ∷ 44
        ∷ 227 ∷ 46 ∷ 224 ∷ 236 ∷ 184 ∷ 210 ∷ 136 ∷ 127 ∷ 121 ∷ 170 ∷ 195 ∷ 193 ∷ 159 ∷ 103 ∷ 50
        ∷ 212 ∷ 196 ∷ 237 ∷ [])
    ∷ (9 ∷ 114 ∷ 154 ∷ 124 ∷ 58 ∷ 228 ∷ 195 ∷ 119 ∷ 244 ∷ 7 ∷ 221 ∷ 164 ∷ 117 ∷ 101 ∷ 134 ∷ 28 ∷ 161
        ∷ 22 ∷ 220 ∷ 194 ∷ 70 ∷ 252 ∷ 136 ∷ 149 ∷ 34 ∷ 89 ∷ 120 ∷ 73 ∷ 87 ∷ 50 ∷ 151 ∷ 59 ∷ 255 ∷ 61
        ∷ 163 ∷ 128 ∷ 64 ∷ 218 ∷ 48 ∷ 124 ∷ 243 ∷ 233 ∷ 225 ∷ 107 ∷ 58 ∷ 238 ∷ 82 ∷ 119 ∷ 169 ∷ 114
        ∷ 211 ∷ 235 ∷ 29 ∷ 40 ∷ 209 ∷ 200 ∷ 159 ∷ 57 ∷ 200 ∷ 17 ∷ 77 ∷ 190 ∷ 156 ∷ 151 ∷ 171 ∷ 83
        ∷ 176 ∷ 188 ∷ 130 ∷ 245 ∷ 146 ∷ 226 ∷ 244 ∷ 111 ∷ 13 ∷ 181 ∷ 107 ∷ 215 ∷ 239 ∷ 158 ∷ 132
        ∷ 244 ∷ 250 ∷ 158 ∷ 74 ∷ 53 ∷ 238 ∷ 98 ∷ 111 ∷ 109 ∷ 5 ∷ 206 ∷ 218 ∷ 171 ∷ 231 ∷ 114 ∷ 110
        ∷ 0 ∷ 161 ∷ 160 ∷ [])
    ∷ (198 ∷ 36 ∷ 127 ∷ 137 ∷ 129 ∷ 130 ∷ 146 ∷ 3 ∷ 128 ∷ 20 ∷ 47 ∷ 182 ∷ 196 ∷ 74 ∷ 47 ∷ 98 ∷ 224
        ∷ 174 ∷ 103 ∷ 92 ∷ 197 ∷ 228 ∷ 77 ∷ 18 ∷ 64 ∷ 255 ∷ 94 ∷ 110 ∷ 178 ∷ 11 ∷ 118 ∷ 250 ∷ 171
        ∷ 254 ∷ 179 ∷ 242 ∷ 119 ∷ 82 ∷ 244 ∷ 250 ∷ 224 ∷ 31 ∷ 70 ∷ 91 ∷ 11 ∷ 247 ∷ 54 ∷ 56 ∷ 108
        ∷ 56 ∷ 84 ∷ 28 ∷ 210 ∷ 122 ∷ 182 ∷ 141 ∷ 22 ∷ 59 ∷ 22 ∷ 77 ∷ 136 ∷ 171 ∷ 137 ∷ 225 ∷ 82
        ∷ 188 ∷ 98 ∷ 221 ∷ 223 ∷ 205 ∷ 33 ∷ 90 ∷ 192 ∷ 44 ∷ 248 ∷ 253 ∷ 34 ∷ 52 ∷ 29 ∷ 229 ∷ 237
        ∷ 181 ∷ 156 ∷ 98 ∷ 45 ∷ 248 ∷ 204 ∷ 52 ∷ 191 ∷ 150 ∷ 76 ∷ 211 ∷ 214 ∷ 57 ∷ 102 ∷ 43 ∷ 164
        ∷ 230 ∷ 242 ∷ 82 ∷ [])
    ∷ (238 ∷ 94 ∷ 203 ∷ 221 ∷ 180 ∷ 237 ∷ 72 ∷ 83 ∷ 131 ∷ 174 ∷ 15 ∷ 247 ∷ 85 ∷ 230 ∷ 226 ∷ 217
        ∷ 214 ∷ 253 ∷ 199 ∷ 182 ∷ 117 ∷ 233 ∷ 78 ∷ 104 ∷ 186 ∷ 185 ∷ 238 ∷ 117 ∷ 127 ∷ 4 ∷ 193 ∷ 56
        ∷ 214 ∷ 38 ∷ 36 ∷ 63 ∷ 88 ∷ 236 ∷ 195 ∷ 240 ∷ 42 ∷ 108 ∷ 193 ∷ 153 ∷ 234 ∷ 84 ∷ 49 ∷ 13
        ∷ 252 ∷ 218 ∷ 227 ∷ 182 ∷ 189 ∷ 237 ∷ 66 ∷ 163 ∷ 125 ∷ 246 ∷ 174 ∷ 17 ∷ 251 ∷ 25 ∷ 175 ∷ 55
        ∷ 223 ∷ 119 ∷ 214 ∷ 233 ∷ 217 ∷ 242 ∷ 73 ∷ 213 ∷ 121 ∷ 24 ∷ 209 ∷ 123 ∷ 87 ∷ 5 ∷ 183 ∷ 102
        ∷ 82 ∷ 143 ∷ 211 ∷ 120 ∷ 164 ∷ 178 ∷ 42 ∷ 216 ∷ 220 ∷ 82 ∷ 98 ∷ 72 ∷ 89 ∷ 34 ∷ 146 ∷ 42 ∷ 60
        ∷ 252 ∷ 217 ∷ 73 ∷ [])
    ∷ (156 ∷ 223 ∷ 101 ∷ 57 ∷ 118 ∷ 43 ∷ 30 ∷ 68 ∷ 35 ∷ 0 ∷ 171 ∷ 112 ∷ 52 ∷ 77 ∷ 185 ∷ 38 ∷ 16
        ∷ 224 ∷ 158 ∷ 255 ∷ 154 ∷ 79 ∷ 164 ∷ 105 ∷ 7 ∷ 241 ∷ 199 ∷ 122 ∷ 123 ∷ 1 ∷ 7 ∷ 158 ∷ 66 ∷ 26
        ∷ 9 ∷ 144 ∷ 79 ∷ 28 ∷ 106 ∷ 178 ∷ 119 ∷ 117 ∷ 161 ∷ 167 ∷ 85 ∷ 119 ∷ 2 ∷ 21 ∷ 44 ∷ 215 ∷ 216
        ∷ 47 ∷ 183 ∷ 177 ∷ 255 ∷ 230 ∷ 169 ∷ 22 ∷ 184 ∷ 74 ∷ 115 ∷ 237 ∷ 35 ∷ 84 ∷ 180 ∷ 168 ∷ 228
        ∷ 121 ∷ 122 ∷ 161 ∷ 218 ∷ 25 ∷ 24 ∷ 163 ∷ 103 ∷ 62 ∷ 62 ∷ 237 ∷ 75 ∷ 62 ∷ 35 ∷ 53 ∷ 67 ∷ 58
        ∷ 42 ∷ 191 ∷ 182 ∷ 79 ∷ 131 ∷ 105 ∷ 174 ∷ 246 ∷ 222 ∷ 175 ∷ 54 ∷ 51 ∷ 41 ∷ 180 ∷ 21 ∷ 80
        ∷ [])
    ∷ (223 ∷ 102 ∷ 150 ∷ 89 ∷ 228 ∷ 82 ∷ 99 ∷ 106 ∷ 32 ∷ 247 ∷ 240 ∷ 211 ∷ 149 ∷ 70 ∷ 223 ∷ 173
        ∷ 215 ∷ 205 ∷ 22 ∷ 40 ∷ 54 ∷ 65 ∷ 87 ∷ 242 ∷ 165 ∷ 233 ∷ 121 ∷ 113 ∷ 9 ∷ 229 ∷ 16 ∷ 0 ∷ 11
        ∷ 65 ∷ 229 ∷ 186 ∷ 156 ∷ 184 ∷ 251 ∷ 116 ∷ 43 ∷ 137 ∷ 40 ∷ 179 ∷ 18 ∷ 203 ∷ 83 ∷ 21 ∷ 142
        ∷ 240 ∷ 44 ∷ 171 ∷ 42 ∷ 228 ∷ 124 ∷ 10 ∷ 91 ∷ 226 ∷ 187 ∷ 41 ∷ 177 ∷ 102 ∷ 144 ∷ 17 ∷ 7 ∷ 83
        ∷ 71 ∷ 252 ∷ 69 ∷ 143 ∷ 138 ∷ 108 ∷ 16 ∷ 46 ∷ 204 ∷ 212 ∷ 57 ∷ 177 ∷ 15 ∷ 218 ∷ 181 ∷ 183
        ∷ 1 ∷ 37 ∷ 190 ∷ 42 ∷ 253 ∷ 116 ∷ 158 ∷ 88 ∷ 29 ∷ 198 ∷ 170 ∷ 79 ∷ 9 ∷ 183 ∷ 255 ∷ 86 ∷ 71
        ∷ 140 ∷ [])
    ∷ (230 ∷ 51 ∷ 186 ∷ 78 ∷ 232 ∷ 193 ∷ 171 ∷ 198 ∷ 106 ∷ 6 ∷ 133 ∷ 136 ∷ 240 ∷ 207 ∷ 1 ∷ 85 ∷ 19
        ∷ 9 ∷ 76 ∷ 83 ∷ 187 ∷ 228 ∷ 82 ∷ 107 ∷ 251 ∷ 6 ∷ 9 ∷ 99 ∷ 63 ∷ 69 ∷ 229 ∷ 162 ∷ 58 ∷ 238
        ∷ 59 ∷ 25 ∷ 132 ∷ 80 ∷ 78 ∷ 64 ∷ 230 ∷ 82 ∷ 103 ∷ 145 ∷ 43 ∷ 213 ∷ 223 ∷ 232 ∷ 113 ∷ 97 ∷ 98
        ∷ 255 ∷ 27 ∷ 4 ∷ 26 ∷ 169 ∷ 248 ∷ 218 ∷ 223 ∷ 218 ∷ 61 ∷ 40 ∷ 237 ∷ 175 ∷ 69 ∷ 103 ∷ 37 ∷ 1
        ∷ 198 ∷ 111 ∷ 165 ∷ 155 ∷ 16 ∷ 153 ∷ 140 ∷ 195 ∷ 45 ∷ 101 ∷ 199 ∷ 33 ∷ 205 ∷ 212 ∷ 73 ∷ 65
        ∷ 179 ∷ 123 ∷ 32 ∷ 33 ∷ 65 ∷ 40 ∷ 23 ∷ 244 ∷ 207 ∷ 25 ∷ 156 ∷ 185 ∷ 179 ∷ 184 ∷ 102 ∷ 13
        ∷ [])
    ∷ []
